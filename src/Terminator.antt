-- ===== src/Terminator.antt =====
-- src/common/ProcessTerminator.hpp and src/main.cpp: how the program ends. SIGINT, SIGABRT and an
-- exception that nothing catches run the handlers of ProcessTerminator once these are set, and the
-- default action before; every other signal has its default action. The handlers jump to the point that `setjmp` has saved, in the stack of `main`.
pub mod Safety
pub mod Twice
mod Examples
use ki.Prelude.{
  ℕ, ◌+◌, if◌then◌else◌, Bool, true, false, not, ◌&&◌, ◌≡◌, Option, none, some, List, [], ◌∷◌,
}

-- What interrupts the program. A signal that is ignored by default interrupts nothing.
pub data Interruption : Type 0 where
  uncaught : Interruption  -- an exception that leaves `main` or a thread: `std::terminate`
  sigabrt sigint : Interruption
  other_signal : Interruption  -- as SIGTERM, SIGHUP, SIGSEGV or SIGKILL

-- Where the thread of `main` stands.
pub data Stage : Type 0 where
  parsing : Stage  -- the options, and the factory
  creating : Stage  -- `toolFactory.createTool()`
  arming : Stage  -- `ProcessTerminator::getInstance()`, with the constructor
  saving : Stage  -- `setjmp(…)`
  copying : Stage  -- `cp->copy()`
  returning : Stage  -- `return 0`: `cp` is destroyed
  jumped : Stage  -- `setjmp` has given 1: `cp = nullptr`
  destroying : ℕ → Stage  -- in the destructor of the tool, on the way to this exit code
  exited : ℕ → Stage
  killed : Interruption → Stage  -- by the default action
  undefined : Stage  -- a jump to a point that is not saved, or into another thread's stack

pub record Program : Type 0 where
  pub stage : Stage
  pub pointer : Bool  -- does `cp` hold the tool?
  pub handlers : Bool  -- are the handlers of ProcessTerminator set?
  pub saved : Bool  -- has `setjmp` filled `buffer`?
  pub copied : Bool  -- has `copy` returned?
  pub begun : ℕ  -- how often the destructor of the tool has begun
  pub completed : Bool  -- has it come to its end?
  pub jumps : ℕ  -- how often `longjmp` has been called
  pub torn : Bool  -- has a jump left the destructor?

abbrev pub launch : Program
launch = record {
  stage = parsing;
  pointer = false;
  handlers = false;
  saved = false;
  copied = false;
  begun = 0;
  completed = false;
  jumps = 0;
  torn = false;
}

abbrev pub delete : Program → ℕ → Program
delete s code = record s { stage = destroying code; begun = s.begun + 1 }

-- `cp = nullptr`: the pointer is null before the old tool is destroyed.
reset : Program → Bool → Program
reset s true = delete (record s { pointer = false }) 1
reset s false = record s { stage = exited 1 }

-- `ProcessTerminator::getInstance()`: the constructor, which sets the handlers, runs once.
get_instance : Program → Program
get_instance s = if s.handlers then s else record s { handlers = true }

-- One move of `main`; `none` where it has ended.
unfoldable pub advance : Program → Stage → Option Program
unfolding reset get_instance
advance s parsing = some (record s { stage = creating })
advance s creating = some (record s { stage = arming; pointer = true })
advance s arming = some (record (get_instance s) { stage = saving })
advance s saving = some (record s { stage = copying; saved = true })
advance s copying = some (record s { stage = returning; copied = true })
advance s returning = some (delete s 0)
advance s jumped = some (reset s s.pointer)
advance s (destroying code) = some (record s { stage = exited code; completed = true })
advance s (exited code) = none
advance s (killed i) = none
advance s undefined = none

abbrev in_destructor : Stage → Bool
in_destructor (destroying code) = true
in_destructor stage = false

-- `longjmp(terminator->buffer, 1)`, called on the thread of `main` or on another one.
long_jump : Bool → Bool → Program → Program
long_jump true true s = record s {
  stage = jumped;
  jumps = s.jumps + 1;
  torn = if in_destructor s.stage then true else s.torn;
}
long_jump true false s = record s { stage = undefined }
long_jump false on_main s = record s { stage = undefined }

terminate_handler : Bool → Program → Program
unfolding long_jump
terminate_handler on_main s = long_jump s.saved on_main s

-- What is registered for an interruption, with the handlers set or not.
act : Bool → Interruption → Bool → Program → Program
unfolding terminate_handler
act true uncaught on_main s = terminate_handler on_main s
act true sigabrt on_main s = terminate_handler on_main s
act true sigint on_main s = terminate_handler on_main s
act true other_signal on_main s = record s { stage = killed other_signal }
act false i on_main s = record s { stage = killed i }

-- An interruption on the thread of `main` or on another one; nothing more happens after the end.
unfoldable pub interrupt : Interruption → Bool → Program → Stage → Option Program
unfolding act
interrupt i on_main s (exited code) = none
interrupt i on_main s (killed j) = none
interrupt i on_main s undefined = none
interrupt i on_main s stage = some (act s.handlers i on_main s)

pub data Step (s : Program) : Program → Type 0 where
  advances : {t : Program} → advance s s.stage ≡ some t → Step s t
  interrupts :
      (i : Interruption) (on_main : Bool) {t : Program}
      → interrupt i on_main s s.stage ≡ some t
      → Step s t

pub data Reach (s : Program) : Program → Type 0 where
  here : Reach s s
  step : {t u : Program} → Reach s t → Step t u → Reach s u
