-- ===== src/Serialize/Data.antt =====
-- The values that the program sends between its processes.
use Prim.Native.Nat.{ℕ}
use Prim.Native.String.{String}
use mathlib.Core.Bool.{Bool}

-- An object is known by its class, with the module first, and by what its `to_args` gives.
mutual
  pub data Value : Type 0 where
    nothing : Value
    flag : Bool → Value
    count : ℕ → Value
    words : String → Value
    list : Values → Value
    dict : Entries → Value
    instance_of : String → String → Values → Entries → Value

  pub data Values : Type 0 where
    no_values : Values
    and_value : Value → Values → Values

  pub data Entries : Type 0 where
    no_entries : Entries
    entry : String → Value → Entries → Entries
