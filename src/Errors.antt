-- ===== src/Errors.antt =====
-- The error stack: hpav_test/libhpav/hpav_error.h and hpav_error.c. The chain of errors is a list,
-- its newest error first; the pointer to the stack is passed and returned.
pub mod Stack
use tulum_utils.Base.{ℕ, Option, some, none, List, [], ◌∷◌, String, leb, if◌then◌else◌}
use tulum_utils.Base.Int.{ℤ, pos, negsuc}

-- The values of enum hpav_error_category; an enum of C holds any int.
pub data ErrorCategory : Type 0 where
  category_unknown category_network category_internal : ErrorCategory
  category_protocol category_input : ErrorCategory
  category_other : ℤ → ErrorCategory

pub data ErrorModule : Type 0 where
  module_unknown module_core module_api module_cli : ErrorModule
  module_itln module_spid : ErrorModule
  module_other : ℤ → ErrorModule

-- A text that may be null.
pub record HpavError : Type 0 where
  pub category : ErrorCategory
  pub module_of : ErrorModule
  pub error_code : ℕ
  pub message : Option String
  pub details : Option String

abbrev pub ErrorStack : Type 0
ErrorStack = List HpavError

unfoldable pub add_error :
    ErrorStack → ErrorCategory → ErrorModule → ℕ → Option String → Option String → ErrorStack
add_error error_stack error_category error_module error_code message details =
    record {
      category = error_category;
      module_of = error_module;
      error_code = error_code;
      message = message;
      details = details;
    }
    ∷ error_stack

-- The walk to the last error of the second stack, whose `next` is set to the first.
pub set_last_next : HpavError → ErrorStack → ErrorStack → ErrorStack
set_last_next e [] error_stack = e ∷ error_stack
set_last_next e (e' ∷ es) error_stack = e ∷ set_last_next e' es error_stack

unfoldable pub append_error_stack : ErrorStack → ErrorStack → ErrorStack
unfolding set_last_next
append_error_stack error_stack [] = error_stack
append_error_stack error_stack (e ∷ es) = set_last_next e es error_stack

-- What is left in the caller's pointer, with the errors that were freed, in order.
unfoldable pub free_error_stack : ErrorStack → ErrorStack × List HpavError
free_error_stack error_stack = ([], error_stack)

-- `unrecognized` is sprintf's text for a value of no name.
module _ (unrecognized : ℤ → String) where
  unfoldable pub error_category_to_string : ErrorCategory → String
  error_category_to_string category_unknown = "Unknown"
  error_category_to_string category_network = "Network"
  error_category_to_string category_internal = "Internal"
  error_category_to_string category_protocol = "Protocol"
  error_category_to_string category_input = "Input"
  error_category_to_string (category_other v) = unrecognized v

  unfoldable pub error_module_to_string : ErrorModule → String
  error_module_to_string module_unknown = "Unknown"
  error_module_to_string module_core = "CORE"
  error_module_to_string module_api = "API"
  error_module_to_string module_cli = "CLI"
  error_module_to_string module_itln = unrecognized (pos 3)
  error_module_to_string module_spid = unrecognized (pos 4)
  error_module_to_string (module_other v) = unrecognized v
