-- ===== src/Base/Memory.antt =====
-- Memory for objects of one type, that `malloc` hands out and `free` takes back.
use Prim.Native.Nat.{ℕ, suc}
use mathlib.Core.Path.{◌≡◌}
use mathlib.Core.Logic.{◌≢◌}
use mathlib.Core.Bool.{Bool, true, false}
use mathlib.Core.Option.{Option, none, some}
use native.Mathlib.Omega.{arith}
use csc.Base.Tests.{◌==◌, if◌then◌else◌}

-- `malloc` hands out the address `next` or, where `refuse next` says so, NULL. `live` marks what is
-- allocated; `content` is what stands at an address, in fresh memory too.
pub record Memory {ℓ} (A : Type ℓ) : Type ℓ where
  pub content : ℕ → A
  pub live : ℕ → Bool
  pub next : ℕ
  pub refuse : ℕ → Bool

module _ {ℓ} {A : Type ℓ} where
  abbrev pub put : ℕ → A → Memory A → Memory A
  put p a m = record m { content = λ q. if p == q then a else m.content q }

  unfoldable pub alloc : Memory A → Option ℕ × Memory A
  alloc m = if m.refuse m.next then (none, record m { next = suc m.next }) else (
    some m.next,
    record m { live = λ q. if m.next == q then true else m.live q; next = suc m.next },
  )

  unfoldable pub release : Option ℕ → Memory A → Memory A
  release none m = m
  release (some p) m = record m { live = λ q. if p == q then false else m.live q }

  pub alloc_refused :
      (m : Memory A) → m.refuse m.next ≡ true → alloc m ≡ (none, record m { next = suc m.next })
  unfolding alloc
  alloc_refused m e = ground arith

  -- The new block `next`.
  abbrev pub grown : Memory A → Memory A
  grown m = record m { live = λ q. if m.next == q then true else m.live q; next = suc m.next }

  pub alloc_granted : (m : Memory A) → m.refuse m.next ≡ false → alloc m ≡ (some m.next, grown m)
  unfolding alloc
  alloc_granted m e = ground arith

  -- Freeing the new block leaves in use what was in use before.
  pub release-grown :
      (m : Memory A) (a : A) (p : ℕ)
      → m.live m.next ≡ false
      → (release (some m.next) (put m.next a (grown m))).live p ≡ m.live p
  unfolding release
  release-grown m a p fresh = ground arith

  pub put_here : (m : Memory A) (p : ℕ) (a : A) → (put p a m).content p ≡ a
  put_here m p a = ground arith

  pub put_elsewhere : (m : Memory A) (p q : ℕ) (a : A) → q ≢ p → (put p a m).content q ≡ m.content q
  put_elsewhere m p q a d = ground arith
