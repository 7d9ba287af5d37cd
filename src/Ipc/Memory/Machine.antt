-- ===== src/Ipc/Memory/Machine.antt =====
-- A machine with one shared memory segment, as boost::interprocess promises it.
use Prim.Native.String.{String}
use text.Mathlib.Text.{◌==◌ as ◌≐◌}
use text.Mathlib.TextEquality.{eq_iff}
use ki.Prelude.{
  ℕ, suc, ◌≡◌, ◌≢◌, refl, ap, Bool, true, false, ◌||◌, ◌==◌, if◌then◌else◌, Option, none, some,
  List, [], ◌∷◌, ltb, arith,
}
use ki.Ipc.Memory.{Boost, Object}
use ki.Ipc.Memory.Laws.{BoostLaws}

-- The objects of the segment: the name, the address, the contents.
pub record Placed : Type 0 where
  pub name : String
  pub address : ℕ
  pub object : Object

pub record Machine : Type 0 where
  pub made : Bool
  pub placed : List Placed
  pub next : ℕ

unfoldable pub address_of : String → List Placed → Option ℕ
address_of name [] = none
address_of name (p ∷ ps) = if p.name ≐ name then some p.address else address_of name ps

unfoldable pub object_of : ℕ → List Placed → Option Object
object_of a [] = none
object_of a (p ∷ ps) = if p.address == a then some p.object else object_of a ps

-- A write to the object at an address.
unfoldable pub put_object : ℕ → Object → List Placed → List Placed
put_object a x [] = []
put_object a x (p ∷ ps) =
    if p.address == a then record p { object = x } ∷ ps else p ∷ put_object a x ps

abbrev pub create : Machine → Option (Unit {0} × Machine)
create m = if m.made then none else some (tt, record { made = true; placed = []; next = m.next })

abbrev pub opened : Machine → Option (Unit {0})
opened m = if m.made then some tt else none

abbrev pub place : String → Object → Machine → ℕ × Machine
place name x m = (
  m.next,
  record m {
    placed = record { name = name; address = m.next; object = x } ∷ m.placed;
    next = suc m.next;
  },
)

abbrev pub block : Machine → ℕ × Machine
block m = (m.next, record m { next = suc m.next })

-- Addresses are given out in order.
abbrev pub held_at : ℕ → Machine → Option Object
held_at a m = if ltb a m.next then object_of a m.placed else none

abbrev pub written : ℕ → Object → Machine → Machine
written a x m = record m { placed = put_object a x m.placed }

abbrev pub machine : Boost
machine = record {
  Machine = Machine;
  Segment = Unit {0};
  create_only = λ name size m. create m;
  open_only = λ name m. opened m;
  construct = λ g name x m. some (place name x m);
  find = λ g name m. address_of name m.placed;
  object_at = held_at;
  store = written;
  allocate = λ g m. some (block m);
  remove = λ name m. (m.made, record m { made = false });
}

exclusive : (m : Machine) (g : Unit {0}) → opened m ≡ some g → create m ≡ none
exclusive m g e = ground arith

creates :
    (m m' : Machine) (g : Unit {0})
    → create m ≡ some (g, m')
    → (opened m' ≡ some g) × ((name : String) → address_of name m'.placed ≡ none)
unfolding address_of
creates m m' g e = (ground arith, λ name. ground arith)

placed-found :
    (object : String) (x : Object) (m m' : Machine) (a : ℕ)
    → some (place object x m) ≡ some (a, m')
    → (address_of object m'.placed ≡ some a) × (held_at a m' ≡ some x)
unfolding address_of object_of
placed-found object x m m' a e = ground (arith, eq_iff object object)

placed-apart :
    (object other : String) (x : Object) (m m' : Machine) (a : ℕ)
    → some (place object x m) ≡ some (a, m')
    → other ≢ object
    → address_of other m'.placed ≡ address_of other m.placed
unfolding address_of
placed-apart object other x m m' a e apart = ground (arith, eq_iff object other)

place-opened :
    (object : String) (x : Object) (m m' : Machine) (a : ℕ)
    → some (place object x m) ≡ some (a, m')
    → opened m' ≡ opened m
place-opened object x m m' a e = ground arith

placed-beside :
    (object : String) (x y : Object) (m m' : Machine) (a c : ℕ)
    → some (place object x m) ≡ some (a, m')
    → held_at c m ≡ some y
    → held_at c m' ≡ some y
unfolding object_of
placed-beside object x y m m' a c e h = ground arith

block-placed :
    (m m' : Machine) (a : ℕ)
    → some (block m) ≡ some (a, m')
    → (m'.placed ≡ m.placed) × (opened m' ≡ opened m)
block-placed m m' a e = ground arith

block-beside :
    (y : Object) (m m' : Machine) (a c : ℕ)
    → some (block m) ≡ some (a, m')
    → held_at c m ≡ some y
    → held_at c m' ≡ some y
block-beside y m m' a c e h = ground arith

object_of-put_object :
    (a : ℕ) (x y : Object) (ps : List Placed)
    → object_of a ps ≡ some y
    → object_of a (put_object a x ps) ≡ some x
unfolding object_of put_object
object_of-put_object a x y [] h = cc
object_of-put_object a x y (p ∷ ps) h = ground (arith, object_of-put_object a x y ps)

address_of-put_object :
    (name : String) (a : ℕ) (x : Object) (ps : List Placed)
    → address_of name (put_object a x ps) ≡ address_of name ps
unfolding address_of put_object
address_of-put_object name a x [] = refl
address_of-put_object name a x (p ∷ ps) = ground (arith, address_of-put_object name a x ps)

written-held :
    (x y : Object) (m : Machine) (a : ℕ) → held_at a m ≡ some y → held_at a (written a x m) ≡ some x
written-held x y m a h = ground (arith, object_of-put_object a x y m.placed)

block-fresh :
    (m m' : Machine) (a : ℕ)
    → some (block m) ≡ some (a, m')
    → (ltb a m.next ≡ false) × ((c : ℕ) → ltb c m'.next ≡ ((c == a) || ltb c m.next))
block-fresh m m' a e = (ground arith, λ c. ground arith)

pub machine-BoostLaws : BoostLaws machine
machine-BoostLaws = record {
  exclusive = λ {m} {g} e. exclusive m g e;
  creates = λ {m} {m'} {g} e. creates m m' g e;
  placed = λ {object} {x} {m} {m'} {a} e. placed-found object x m m' a e;
  placed_apart =
      λ {object} {other} {x} {m} {m'} {a} e apart. placed-apart object other x m m' a e apart;
  placed_inside = λ {object} {x} {m} {m'} {a} e. place-opened object x m m' a e;
  placed_beside = λ {object} {x} {y} {m} {m'} {a} {c} e h. placed-beside object x y m m' a c e h;
  allocated_beside = λ {y} {m} {m'} {a} {c} e h. block-beside y m m' a c e h;
  stored = λ {x} {y} {m} {a} h. written-held x y m a h;
  stored_apart = λ {object} {x} {m} {a}. address_of-put_object object a x m.placed;
  stored_inside = λ {m}. refl;
  allocated_apart = λ {object} {m} {m'} {a} e. ap (address_of object) (block-placed m m' a e).0;
  allocated_inside = λ {m} {m'} {a} e. (block-placed m m' a e).1;
  in_use = λ m a. ltb a m.next;
  allocated_fresh = λ {m} {m'} {a} e. block-fresh m m' a e;
  removed = λ name m. refl;
}
