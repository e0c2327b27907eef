-- ===== src/Interrupt/Scopes.antt =====
-- source/Util.hpp: the scopes that switch interrupts off and on. The state is the interrupt flag of the processor, and
-- `none` is a failed assertion; code is what it notices of the flag, in its scopes.
use flix.Base.{
  ◌≡◌, refl, ◌∙◌, Bool, true, false, not, Option, some, List, [], ◌∷◌, ◌++◌, assert, ◌>>=◌, ◌>>◌,
  >>=-some, if◌then◌else◌,
}

-- `disableInterrupts` and `enableInterrupts`
unfoldable pub disable_interrupts : Bool → Option Bool
disable_interrupts flag = do assert flag; some false

unfoldable pub enable_interrupts : Bool → Option Bool
enable_interrupts flag = do assert (not flag); some true

-- The constructor of `DisableInterrupts`: `_enable`, and the flag; and its destructor.
unfoldable pub enter_disabled : Bool → Option (Bool × Bool)
enter_disabled flag = do
  flag₁ ← if flag then disable_interrupts flag else some flag
  some (flag, flag₁)

unfoldable pub leave_disabled : Bool → Bool → Option Bool
leave_disabled enable flag = if enable then enable_interrupts flag else some flag

-- The same of `EnableInterrupts`, with `_disable`.
unfoldable pub enter_enabled : Bool → Option (Bool × Bool)
enter_enabled flag = do
  flag₁ ← if not flag then enable_interrupts flag else some flag
  some (not flag, flag₁)

unfoldable pub leave_enabled : Bool → Bool → Option Bool
leave_enabled disable flag = if disable then disable_interrupts flag else some flag

-- Code in nested scopes.
pub data Code : Type 0 where
  notice : Code
  then_do : Code → Code → Code
  disabled enabled : Code → Code

-- The code run, with the flags that it has noticed.
unfoldable pub run : Code → Bool → Option (List Bool × Bool)
run notice flag = some (flag ∷ [], flag)
run (then_do c d) flag = do
  (seen, flag₁) ← run c flag
  (more, flag₂) ← run d flag₁
  some (seen ++ more, flag₂)
run (disabled c) flag = do
  (enable, flag₁) ← enter_disabled flag
  (seen, flag₂) ← run c flag₁
  flag₃ ← leave_disabled enable flag₂
  some (seen, flag₃)
run (enabled c) flag = do
  (disable, flag₁) ← enter_enabled flag
  (seen, flag₂) ← run c flag₁
  flag₃ ← leave_enabled disable flag₂
  some (seen, flag₃)

-- What code should notice: the flag of the innermost scope around it.
unfoldable pub notices : Code → Bool → List Bool
notices notice flag = flag ∷ []
notices (then_do c d) flag = notices c flag ++ notices d flag
notices (disabled c) flag = notices c false
notices (enabled c) flag = notices c true

-- Code in scopes of DisableInterrupts and EnableInterrupts, nested in any way and run with
-- interrupts on or off: no assertion fails, each piece runs with interrupts as the innermost scope
-- around it says, and at the end they are as at the start.
pub run-notices : (c : Code) (flag : Bool) → run c flag ≡ some (notices c flag, flag)
unfolding run notices enter_disabled leave_disabled enter_enabled leave_enabled disable_interrupts
    enable_interrupts
run-notices notice flag = refl
run-notices (then_do c d) flag =
    >>=-some _ _ (run-notices c flag) ∙ >>=-some _ _ (run-notices d flag)
run-notices (disabled c) true = >>=-some _ _ (run-notices c false)
run-notices (disabled c) false = >>=-some _ _ (run-notices c false)
run-notices (enabled c) true = >>=-some _ _ (run-notices c true)
run-notices (enabled c) false = >>=-some _ _ (run-notices c true)
