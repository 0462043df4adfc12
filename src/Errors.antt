-- ===== src/Errors.antt =====
-- The exceptions of api/python/provisioner/errors.py and those of Python that the code raises.
use cortx_prvsnr.Prelude.{String}
use cortx_prvsnr.Json.Values.{Json}

-- A text is the message. A wrapper keeps the exception that it was raised from, and those of an
-- operation with a rollback what the rollback raised, or `None`.
mutual
  pub data Exception : Type 0 where
    attribute_error value_error type_error runtime_error not_implemented_error : String → Exception
    key_error os_error stop_iteration : String → Exception
    provisioner_error no_more_tries_error bad_pillar_data_error : String → Exception
    lock_file_acquire_error unbound_local_error : String → Exception
    salt_error prvsnr_cmd_not_found_error prvsnr_cmd_not_finished_error : String → Exception
    prvsnr_type_decode_error file_not_found_error : String → Exception
    -- The errors of a salt call have the masked arguments of the call before the reason.
    salt_cmd_result_error : Json → Json → Exception
    salt_cmd_run_error : Json → Exception → Exception
    salt_no_return_error : Json → String → Exception
    -- A text that is the reason of a wrapper, with no exception behind it.
    reason : String → Exception
    validation_error critical_validation_error : String → Exception
    sw_upgrade_error sw_rollback_error : Exception → Exception
    cluster_maintenance_enable_error cluster_maintenance_disable_error : Exception → Exception
    sw_stack_update_error ha_post_update_error cluster_not_healthy_error : Exception → Exception
    sw_update_error sw_update_fatal_error : Exception → RollbackError → Exception
    pillar_set_error ssl_certs_update_error : Exception → RollbackError → Exception
    sw_update_repo_source_error : String → String → Exception

  pub data RollbackError : Type 0 where
    no_rollback_error : RollbackError
    rollback_error : Exception → RollbackError
