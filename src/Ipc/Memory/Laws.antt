-- ===== src/Ipc/Memory/Laws.antt =====
-- What SharedMemoryManager relies on in boost::interprocess.
use Prim.Native.String.{String}
use ki.Prelude.{ℕ, ◌≡◌, ◌≢◌, ◌||◌, ◌==◌, Bool, false, none, some}
use ki.Ipc.Memory.{Boost, Object}

pub record BoostLaws (b : Boost) : Type 0 where
  -- Only a segment that is not there can be created; a new one is there, and holds nothing.
  pub exclusive :
      {name : String} {size : ℕ} {m : Boost.Machine b} {g : Boost.Segment b}
      → Boost.open_only b name m ≡ some g
      → Boost.create_only b name size m ≡ none
  pub creates :
      {name : String} {size : ℕ} {m m' : Boost.Machine b} {g : Boost.Segment b}
      → Boost.create_only b name size m ≡ some (g, m')
      → (Boost.open_only b name m' ≡ some g) × ((object : String) → Boost.find b g object m' ≡ none)
  -- An object that has been placed is found under its name, and holds what it was constructed with.
  pub placed :
      {g : Boost.Segment b} {object : String} {x : Object} {m m' : Boost.Machine b} {a : ℕ}
      → Boost.construct b g object x m ≡ some (a, m')
      → (Boost.find b g object m' ≡ some a) × (Boost.object_at b a m' ≡ some x)
  -- It changes no other name.
  pub placed_apart :
      {g : Boost.Segment b} {object other : String} {x : Object} {m m' : Boost.Machine b} {a : ℕ}
      → Boost.construct b g object x m ≡ some (a, m')
      → other ≢ object
      → Boost.find b g other m' ≡ Boost.find b g other m
  pub placed_inside :
      {g : Boost.Segment b} {object name : String} {x : Object} {m m' : Boost.Machine b} {a : ℕ}
      → Boost.construct b g object x m ≡ some (a, m')
      → Boost.open_only b name m' ≡ Boost.open_only b name m
  -- No object is placed over another.
  pub placed_beside :
      {g : Boost.Segment b} {object : String} {x y : Object} {m m' : Boost.Machine b} {a c : ℕ}
      → Boost.construct b g object x m ≡ some (a, m')
      → Boost.object_at b c m ≡ some y
      → Boost.object_at b c m' ≡ some y
  -- Blocks are neither objects nor segments.
  pub allocated_apart :
      {g : Boost.Segment b} {object : String} {m m' : Boost.Machine b} {a : ℕ}
      → Boost.allocate b g m ≡ some (a, m')
      → Boost.find b g object m' ≡ Boost.find b g object m
  pub allocated_inside :
      {g : Boost.Segment b} {name : String} {m m' : Boost.Machine b} {a : ℕ}
      → Boost.allocate b g m ≡ some (a, m')
      → Boost.open_only b name m' ≡ Boost.open_only b name m
  pub allocated_beside :
      {g : Boost.Segment b} {y : Object} {m m' : Boost.Machine b} {a c : ℕ}
      → Boost.allocate b g m ≡ some (a, m')
      → Boost.object_at b c m ≡ some y
      → Boost.object_at b c m' ≡ some y
  -- A write to an object changes that object only, and no name.
  pub stored :
      {x y : Object} {m : Boost.Machine b} {a : ℕ}
      → Boost.object_at b a m ≡ some y
      → Boost.object_at b a (Boost.store b a x m) ≡ some x
  pub stored_apart :
      {g : Boost.Segment b} {object : String} {x : Object} {m : Boost.Machine b} {a : ℕ}
      → Boost.find b g object (Boost.store b a x m) ≡ Boost.find b g object m
  pub stored_inside :
      {name : String} {x : Object} {m : Boost.Machine b} {a : ℕ}
      → Boost.open_only b name (Boost.store b a x m) ≡ Boost.open_only b name m
  -- A block that is in use is not given out again.
  pub in_use : Boost.Machine b → ℕ → Bool
  pub allocated_fresh :
      {g : Boost.Segment b} {m m' : Boost.Machine b} {a : ℕ}
      → Boost.allocate b g m ≡ some (a, m')
      → (in_use m a ≡ false) × ((c : ℕ) → in_use m' c ≡ ((c == a) || in_use m c))
  -- A segment that has been removed is not opened any more.
  pub removed :
      (name : String) (m : Boost.Machine b)
      → Boost.open_only b name (Boost.remove b name m).1 ≡ none
