-- ===== src/Pillar/Entry/View.antt =====
-- What stands under a key path, and pillars that differ by empty dicts only.
use cortx_prvsnr.Prelude.{String, ◌≡◌, ◌≢◌, refl, ◌⊎◌, inl, inr, Option, none, some, [], ◌∷◌, arith}
use cortx_prvsnr.Pillar.Value.{Value, null, scalar, dict, Entries, get}
use cortx_prvsnr.Pillar.Entry.{KeyPath}

-- Under a key path there is nothing, a dict, or a value that is no dict.
pub data View : Type 0 where
  nothing a_dict : View
  a_leaf : Value → View

abbrev pub shape : Value → View
shape null = a_leaf null
shape (scalar s) = a_leaf (scalar s)
shape (dict es) = a_dict

abbrev pub step : String → Value → Option Value
step k null = none
step k (scalar s) = none
step k (dict es) = get k es

abbrev pub view : KeyPath → Value → View
view [] v = shape v
view (k ∷ ks) v = elim (step k v) [ none ↦ nothing | some u ↦ view ks u ]

-- The same view, or a dict where nothing was.
abbrev pub IsAtMost : View → View → Type 0
IsAtMost a b = (a ≡ b) ⊎ ((a ≡ nothing) × (b ≡ a_dict))

-- `q` is `p` with empty dicts, and dicts of such, added under keys that `p` does not have.
abbrev pub Extends : Value → Value → Type 0
Extends p q = (kp : KeyPath) → IsAtMost (view kp p) (view kp q)

pub Extends-refl : (p : Value) → Extends p p
Extends-refl p kp = inl refl

pub Extends-dict : (es : Entries) (q : Value) → Extends (dict es) q → (fs : Entries) × (q ≡ dict fs)
Extends-dict es null h = elim (h []) [ inl e ↦ cc | inr (e, f) ↦ cc ]
Extends-dict es (scalar s) h = elim (h []) [ inl e ↦ cc | inr (e, f) ↦ cc ]
Extends-dict es (dict fs) h = (fs, refl)

-- What `es` has under a key, an extension of it has too.
pub Extends-some :
    (es fs : Entries) (k : String) (v : Value)
    → Extends (dict es) (dict fs)
    → get k es ≡ some v
    → (u : Value) × (get k fs ≡ some u) × Extends v u
Extends-some es fs k v h e = split (get k fs) refl
  where
    shape-ne-nothing : (x : Value) → shape x ≢ nothing
    shape-ne-nothing null p = cc
    shape-ne-nothing (scalar s) p = cc
    shape-ne-nothing (dict gs) p = cc

    split : (o : Option Value) → get k fs ≡ o → (u : Value) × (get k fs ≡ some u) × Extends v u
    split none f = absurd (shape-ne-nothing v (ground (arith, h (k ∷ []))))
    split (some u) f = (u, f, λ kp. ground (arith, h (k ∷ kp)))
