-- ===== src/Outcome/Errors.antt =====
-- pkg/cloudprovider/errors/errors.go, and the kinds of errors that the code tells apart.
use machine_controller.Base.{String, Bool, true, false, Option, none, some}

-- `fmt.Errorf("...: %v", err)` keeps only the text of its cause: `wrapped` is of no special kind.
pub data Error : Type 0 where
  instance_not_found : Error
  terminal_error : String → String → Error
  not_found conflict too_many_requests timed_out : Error
  new_error : String → Error
  wrapped : String → Error → Error

unfoldable pub is_terminal_error : Error → Option (String × String)
is_terminal_error (terminal_error reason message) = some (reason, message)
is_terminal_error _ = none

abbrev pub is_instance_not_found : Error → Bool
is_instance_not_found instance_not_found = true
is_instance_not_found _ = false

abbrev pub is_not_found : Error → Bool
is_not_found not_found = true
is_not_found _ = false

abbrev pub is_conflict : Error → Bool
is_conflict conflict = true
is_conflict _ = false

abbrev pub is_too_many_requests : Error → Bool
is_too_many_requests too_many_requests = true
is_too_many_requests _ = false
