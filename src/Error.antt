-- ===== src/Error.antt =====
-- The exceptions and faults of the readers, the writers and the tools in src.
use ki.Prelude.{Bool, true, false, ◌≡◌, refl}

pub data Error : Type 0 where
  cannot_open_file : Error  -- "Reader: Can`t open a file", "can`t open src file"
  cannot_size_file : Error  -- the exception of `std::filesystem::file_size`
  cannot_set_buffering : Error  -- "can`t set buffering mode"
  cannot_create_file : Error  -- "can`t create output file", "can`t create a file"
  cannot_resize_file : Error  -- "can`t resize a file"
  cannot_map_file : Error  -- "Can`t create a memory mapping of input file"
  writing_more_than_expected : Error  -- "Writer: writing more than expected"
  missing_reader : Error  -- "FileReader is nullptr"
  missing_writer : Error  -- "FileWriter is nullptr"
  bad_optional_access : Error  -- `value()` of an empty optional
  observes_nothing : Error  -- "SiblingProcessObserver can`t observe process that run Invalid tool"
  too_few_arguments : Error  -- "Too few arguments were passed"
  incorrect_tool_type : Error  -- "incorrect tool type"
  null_stream : Error  -- a stdio call on a null FILE*, a copy through an address that is not mapped
  cannot_open_segment : Error  -- `interprocess_exception` of an open
  out_of_segment : Error  -- `bad_alloc` of boost::interprocess
  null_pointer : Error  -- an access through a null pointer
  watch_in_auto_mode : Error  -- "start() and stop() can`t be applied to stopwatch in auto mode"

-- A call that may throw.
pub data Result {ℓ} (A : Type ℓ) : Type ℓ where
  err : Error → Result A
  ok : A → Result A

-- `if (!condition) throw error;`
abbrev pub guard : Bool → Error → Result (Unit {0})
guard false thrown = err thrown
guard true thrown = ok tt

-- What follows a call runs only where the call has not thrown.
infixl 5 ◌>>=◌
abbrev pub ◌>>=◌ {ℓ κ} : {A : Type ℓ} {B : Type κ} → Result A → (A → Result B) → Result B
err thrown >>= next = err thrown
ok value >>= next = next value

infixl 5 ◌>>◌
abbrev pub ◌>>◌ {κ} : {B : Type κ} → Result (Unit {0}) → Result B → Result B
err thrown >> next = err thrown
ok tt >> next = next

-- A chain of two calls that has not thrown.
pub returned_first {ℓ κ} :
    {A : Type ℓ} {B : Type κ} {b : B} (m : Result A) (next : A → Result B)
    → (m >>= next) ≡ ok b
    → (a : A) × (m ≡ ok a) × (next a ≡ ok b)
returned_first (err x) next h = absurd (cc h)
returned_first (ok a) next h = (a, refl, h)

pub ok_injective {ℓ} : {A : Type ℓ} {a b : A} → ok a ≡ ok b → a ≡ b
ok_injective e = cc e
