-- ===== src/Ipc/Memory/Blocks.antt =====
-- src/queue/BufferedQueue.hpp: the blocks of the queue in the shared memory are distinct.
use Prim.Native.String.{String}
use mathlib.Core.Path.{subst}
use ki.Prelude.{
  ℕ, zero, suc, ◌≤◌, ◌≡◌, refl, ap, ◌∙◌, true, none, some, Option, List, ◌∷◌, count, length, arith,
}
use ki.Error.{ok, returned_first, ok_injective}
use ki.Ipc.Memory.{Boost, Object, allocate_blocks, or_throw}
use ki.Ipc.Memory.Laws.{BoostLaws}

pub or_throw-some {ℓ} : {A : Type ℓ} {a : A} (x : Option A) → or_throw x ≡ ok a → x ≡ some a
unfolding or_throw
or_throw-some none e = absurd (cc e)
or_throw-some (some a) e = ground arith

module _ {b : Boost} (laws : BoostLaws b) where
  -- No segment and no object has come or gone.
  pub record Keeps (m m' : Boost.Machine b) (g : Boost.Segment b) : Type 0 where
    pub segments : (name : String) → Boost.open_only b name m' ≡ Boost.open_only b name m
    pub objects : (object : String) → Boost.find b g object m' ≡ Boost.find b g object m
    pub contents :
        (c : ℕ) (y : Object) → Boost.object_at b c m ≡ some y → Boost.object_at b c m' ≡ some y

  -- The loop of the queue's constructor: distinct blocks.
  pub record Fresh (m : Boost.Machine b) (n : ℕ) (blocks : List ℕ) : Type 0 where
    pub many : length blocks ≡ n
    pub apart : (a : ℕ) → count a blocks ≤ 1
    pub unused : (a : ℕ) → BoostLaws.in_use laws m a ≡ true → count a blocks ≡ 0

  Fresh-cons :
      {g : Boost.Segment b} {m m' : Boost.Machine b} {a n : ℕ} {blocks : List ℕ}
      → Boost.allocate b g m ≡ some (a, m')
      → Fresh m' n blocks
      → Fresh m (suc n) (a ∷ blocks)
  Fresh-cons {a} e f =
      let new = BoostLaws.allocated_fresh laws e in
      record {
        many = ap suc f.many;
        apart = λ c. ground (arith, f.apart c, f.unused c, new.1 c, new.1 a);
        unused = λ c h. ground (arith, f.unused c, new.1 c, new.0, h);
      }

  pub allocate_blocks-Fresh :
      {g : Boost.Segment b} (n : ℕ) {m m' : Boost.Machine b} {blocks : List ℕ}
      → allocate_blocks b n g m ≡ ok (blocks, m')
      → Keeps m m' g × Fresh m n blocks
  unfolding allocate_blocks
  allocate_blocks-Fresh {g} zero {m} h =
      subst (λ p. Keeps m p.1 g × Fresh m 0 p.0) (ok_injective h)
        (
          record { segments = λ name. refl; objects = λ object. refl; contents = λ c y h. h },
          record { many = refl; apart = λ a. omega arith; unused = λ a used. refl },
        )
  allocate_blocks-Fresh {g} (suc n) {m} h =
      let one = returned_first (or_throw (Boost.allocate b g m)) _ h in
      let more = returned_first (allocate_blocks b n g one.0.1) _ one.2 in
      let e = or_throw-some (Boost.allocate b g m) one.1 in
      let rest = allocate_blocks-Fresh n more.1 in
      subst (λ p. Keeps m p.1 g × Fresh m (suc n) p.0) (ok_injective more.2)
        (
          record {
            segments = λ name. rest.0.segments name ∙ BoostLaws.allocated_inside laws e;
            objects = λ object. rest.0.objects object ∙ BoostLaws.allocated_apart laws e;
            contents = λ c y h. rest.0.contents c y (BoostLaws.allocated_beside laws e h);
          },
          Fresh-cons e rest.1,
        )
