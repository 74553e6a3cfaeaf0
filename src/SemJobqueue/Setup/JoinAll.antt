-- ===== src/SemJobqueue/Setup/JoinAll.antt =====
-- Processes that are not init and call sem_jobqueue_new one after the other.
use csc.Base.{ℕ, suc, ◌≡◌, refl, ap, ◌∙◌, map, false, Option, none, some, List, [], ◌∷◌, All}
use csc.Proc.{Proc}
use csc.SemJobqueue.Setup.{SemJobqueue, World, Chances, new}
use csc.SemJobqueue.Setup.Opening.{AllChances}
use csc.SemJobqueue.Setup.Joining.{Offers, using, Same, new-joined, Offers-Same}

Same-trans : (u v w : World) → Same u v → Same v w → Same u w
Same-trans u v w a b = record {
  named = b.named ∙ a.named;
  content = b.content ∙ a.content;
  user = b.user ∙ a.user;
  known = b.known ∙ a.known;
  value = λ k. b.value k ∙ a.value k;
}

with_queue : SemJobqueue → Option (List SemJobqueue × World) → Option (List SemJobqueue × World)
with_queue q none = none
with_queue q (some (qs, w)) = some (q ∷ qs, w)

-- What comes after a call of `sem_jobqueue_new`, if it has returned a queue.
then_others :
    Option (Option SemJobqueue × World)
    → (World → Option (List SemJobqueue × World))
    → Option (List SemJobqueue × World)
then_others none next = none
then_others (some (none, w)) next = none
then_others (some (some q, w)) next = with_queue q (next w)

-- The processes of the list call sem_jobqueue_new one after the other.
pub join_all : List (Proc × Chances) → World → Option (List SemJobqueue × World)
join_all [] w = some ([], w)
join_all ((p, c) ∷ others) w = then_others (new (some p) c w) (join_all others)

pub join_all-first :
    (p : Proc) (c : Chances) (ps : List (Proc × Chances)) (w u w' : World) (q : SemJobqueue)
    (qs : List SemJobqueue)
    → new (some p) c w ≡ some (some q, u)
    → join_all ps u ≡ some (qs, w')
    → join_all ((p, c) ∷ ps) w ≡ some (q ∷ qs, w')
unfolding join_all then_others with_queue
join_all-first p c ps w u w' q qs made rest =
    ap (λ r. then_others r (join_all ps)) made ∙ ap (with_queue q) rest

abbrev pub CanJoin : Proc × Chances → Type 0
CanJoin (p, c) = (p.is_init ≡ false) × AllChances c

pub join_all-joined :
    (ps : List (Proc × Chances)) (w : World) (o m f e v : ℕ)
    → All CanJoin ps
    → Offers o m f e w
    → w.semaphores.value m ≡ suc v
    → (w' : World) × (join_all ps w ≡ some (map (λ pc. using pc.0 w.system.user o m f e) ps, w'))
      × Same w w'
unfolding join_all
join_all-joined [] w o m f e v can offers free =
    (w, refl, record { named = refl; content = refl; user = refl; known = refl; value = λ k. refl })
join_all-joined ((p, c) ∷ ps) w o m f e v ((other, all), can) offers free =
    let (u, first, same) = new-joined p c w o m f e v other all offers free in
    let (w', rest, same') =
      join_all-joined ps u o m f e v can (Offers-Same o m f e w u offers same)
        (same.value m ∙ free) in
    (
      w',
      join_all-first p c ps w u w' (using p w.system.user o m f e) _ first (
          rest
          ∙ ap (λ user. some (map (λ (pc : Proc × Chances). using pc.0 user o m f e) ps, w'))
              same.user),
      Same-trans w u w' same same',
    )
