-- ===== src/Errors/Stack.antt =====
-- Laws of the error stack.
use tulum_utils.Base.{ℕ, ◌≡◌, refl, ap, Option, [], ◌∷◌, ◌++◌, String, append_assoc}
use tulum_utils.Errors.{
  HpavError, ErrorStack, ErrorCategory, ErrorModule, add_error, append_error_stack, set_last_next,
}

set_last_next-append : (e : HpavError) (es s : ErrorStack) → set_last_next e es s ≡ (e ∷ es) ++ s
unfolding set_last_next
set_last_next-append e [] s = refl
set_last_next-append e (e' ∷ es) s = ap (◌∷◌ e) (set_last_next-append e' es s)

-- Appending a second stack puts its errors, in their order, on top of the first; it does nothing
-- if the second is empty.
pub append_error_stack_lem :
    (error_stack second : ErrorStack)
    → append_error_stack error_stack second ≡ second ++ error_stack
unfolding append_error_stack
append_error_stack_lem error_stack [] = refl
append_error_stack_lem error_stack (e ∷ es) = set_last_next-append e es error_stack

-- An error added to the second stack before it is appended stands on top, as if it had been added
-- to the joined stack; and appending twice may be done in one.
pub append-add_error :
    (s t u : ErrorStack) (c : ErrorCategory) (m : ErrorModule) (code : ℕ)
    (text more : Option String)
    → (append_error_stack s (add_error t c m code text more)
        ≡ add_error (append_error_stack s t) c m code text more)
      × (append_error_stack (append_error_stack s t) u
          ≡ append_error_stack s (append_error_stack t u))
unfolding add_error
append-add_error s t u c m code text more = (
  rw (append_error_stack_lem s (add_error t c m code text more), append_error_stack_lem s t),
  rw (
    append_error_stack_lem (append_error_stack s t) u,
    append_error_stack_lem s (append_error_stack t u),
    append_error_stack_lem s t,
    append_error_stack_lem t u,
    append_assoc u t s,
  ),
)
