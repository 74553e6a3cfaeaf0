-- ===== src/Ipc/Outcomes.antt =====
-- How ipc_new ends, for all arguments and whichever of its calls fail.
use csc.Base.{
  ℕ, ◌≡◌, refl, sym, subst, Bool, true, false, ◌&&◌, ◌||◌, Option, none, some, List, arith, ◌==◌,
  if◌then◌else◌,
}
use csc.Proc
use csc.Proc.{Proc}
use csc.Ipc.{
  Ipc, System, Grants, non_init_delay, rename, ipc_name, shm_unlink, shm_open, ftruncate, prepare,
  attach, new,
}
use csc.Ipc.Share.{fresh_object, same_text_refl, attach-Created, attach-killed, new-fresh, new-kept}
use csc.Ipc.Ends.{Joined, Unmade, Zeroed, Taken, Mapped, Result}

module _ {ℓ} {A : Type ℓ} (zeros : A) where
  new-Joined :
      (p : Proc) (label : Option (List ℕ)) (size o : ℕ) (g : Grants) (s : System A)
      → p.is_init ≡ false
      → (size == 0) ≡ false
      → (g.malloc && (g.shm_open && g.mmap)) ≡ true
      → s.named (ipc_name s.user label) ≡ some o
      → Joined p label o s (new zeros (some p) label size g s)
  unfolding new attach shm_open prepare
  new-Joined p label size o g s init ne granted named = ground arith

  new-absent :
      (p : Proc) (label : Option (List ℕ)) (size : ℕ) (g : Grants) (s : System A)
      → p.is_init ≡ false
      → (size == 0) ≡ false
      → (g.malloc && (g.shm_open && g.mmap)) ≡ true
      → s.named (ipc_name s.user label) ≡ none
      → Unmade s (new zeros (some p) label size g s)
  unfolding new attach shm_open prepare
  new-absent p label size g s init ne granted named = record {
    after = record s { clock = Proc.delay_ms non_init_delay s.clock };
    null = ground arith;
    content = refl;
    same_user = refl;
  }

  unmade :
      (s t : System A) (out : Option (Option Ipc × System A))
      → out ≡ some (none, t)
      → t.content ≡ s.content
      → t.user ≡ s.user
      → Unmade s out
  unmade s t out e same user = record { after = t; null = e; content = same; same_user = user }

  attach-unmapped :
      (p : Proc) (name : List ℕ) (g : Grants) (s : System A) (out : Option ℕ × System A)
      → g.mmap ≡ false
      → out.1.content ≡ s.content
      → out.1.user ≡ s.user
      → Unmade s (attach zeros p name g out)
  unfolding attach ftruncate
  attach-unmapped p name g s (none, t) refused same user = unmade s t _ refl same user
  attach-unmapped p name g s (some o, t) refused same user =
      unmade s (if p.is_init then ftruncate o g.ftruncate t else t) _ (ground arith)
        (ground (arith, same)) (ground (arith, user))

  attach-unopened :
      (p : Proc) (name : List ℕ) (g : Grants) (s : System A) (out : Option ℕ × System A)
      → out.0 ≡ none
      → out.1.content ≡ s.content
      → out.1.user ≡ s.user
      → Unmade s (attach zeros p name g out)
  unfolding attach
  attach-unopened p name g s (none, t) e same user = unmade s t _ refl same user
  attach-unopened p name g s (some o, t) e same user = cc

  shm_open-refused :
      (p : Proc) (name : List ℕ) (g : Grants) (s : System A)
      → g.shm_open ≡ false
      → (shm_open p.is_init name g.shm_open (prepare p name g.shm_unlink s)).0 ≡ none
  unfolding shm_open
  shm_open-refused p name g s refused = rw refused refl

  opened_keeps :
      (creates : Bool) (p : Proc) (name : List ℕ) (g : Grants) (s : System A)
      → let t = (shm_open creates name g.shm_open (prepare p name g.shm_unlink s)).1 in
        (t.content ≡ s.content) × (t.user ≡ s.user)
  unfolding shm_open prepare shm_unlink
  opened_keeps creates p name g s = (ground arith, ground arith)

  zeroed :
      (p : Proc) (label : Option (List ℕ)) (g : Grants) (s u : System A) (o : ℕ) (sizes : Bool)
      → p.is_init ≡ true
      → g.mmap ≡ true
      → (g.ftruncate || u.sized o) ≡ sizes
      → u.named (ipc_name s.user label) ≡ some o
      → u.content ≡ s.content
      → u.user ≡ s.user
      → Zeroed zeros p label s o sizes (attach zeros p (ipc_name s.user label) g (some o, u))
  zeroed p label g s u o true init mapped sized named content user =
      attach-Created zeros p label g s u o init mapped sized named content user
  zeroed p label g s u o false init mapped sized named content user =
      attach-killed zeros p (ipc_name s.user label) g u o init mapped sized

  zeroed_fresh :
      (p : Proc) (label : Option (List ℕ)) (size : ℕ) (g : Grants) (s : System A)
      (names : List ℕ → Option ℕ) (sizes : Bool)
      → p.is_init ≡ true
      → (size == 0) ≡ false
      → (g.malloc && (g.shm_open && g.mmap)) ≡ true
      → g.ftruncate ≡ sizes
      → names ≡ (if g.shm_unlink then rename s.named (ipc_name s.user label) none else s.named)
      → names (ipc_name s.user label) ≡ none
      → Zeroed zeros p label s s.next sizes (new zeros (some p) label size g s)
  zeroed_fresh p label size g s names sizes init ne ok z same free =
      let name = ipc_name s.user label in
      let kept : (rename names name (some s.next)) name ≡ some s.next =
        rw (same_text_refl name) refl in
      subst (Zeroed zeros p label s s.next sizes)
        (sym (
          new-fresh zeros p label size g s names init (ground (arith, ne)) (ground (arith, ok))
            (ground (arith, ok)) same free))
        (zeroed p label g s (fresh_object names name s) s.next sizes init (ground (arith, ok))
          (ground (arith, z)) kept refl refl)

  -- Without memory; without `shm_open`; and without `mmap`.
  new-refused :
      (p : Proc) (label : Option (List ℕ)) (size : ℕ) (g : Grants) (s : System A)
      (memory opens mapped : Bool)
      → (size == 0) ≡ false
      → g.malloc ≡ memory
      → g.shm_open ≡ opens
      → g.mmap ≡ mapped
      → (memory && (opens && mapped)) ≡ false
      → Unmade s (new zeros (some p) label size g s)
  unfolding new attach
  new-refused p label size g s false opens mapped ne m o r refused =
      unmade s s _ (rw ne (rw m refl)) refl refl
  new-refused p label size g s true false mapped ne m o r refused =
      let name = ipc_name s.user label in
      let (same, user) = opened_keeps p.is_init p name g s in
      rw ne (rw m (attach-unopened p name g s _ (shm_open-refused p name g s o) same user))
  new-refused p label size g s true true false ne m o r refused =
      let name = ipc_name s.user label in
      let (same, user) = opened_keeps p.is_init p name g s in
      rw ne (rw m (attach-unmapped p name g s _ r same user))
  new-refused p label size g s true true true ne m o r refused = cc

  taken :
      (p : Proc) (label : Option (List ℕ)) (size : ℕ) (g : Grants) (s : System A)
      (unlinks sizes : Bool) (found : Option ℕ)
      → p.is_init ≡ true
      → (size == 0) ≡ false
      → (g.malloc && (g.shm_open && g.mmap)) ≡ true
      → g.shm_unlink ≡ unlinks
      → g.ftruncate ≡ sizes
      → s.named (ipc_name s.user label) ≡ found
      → Taken zeros p label s unlinks sizes found (new zeros (some p) label size g s)
  taken p label size g s true sizes found init ne ok u z named =
      let name = ipc_name s.user label in
      let free : (rename s.named name none) name ≡ none = rw (same_text_refl name) refl in
      zeroed_fresh p label size g s (rename s.named name none) sizes init ne ok z (rw u refl) free
  taken p label size g s false sizes none init ne ok u z named =
      zeroed_fresh p label size g s s.named sizes init ne ok z (rw u refl) named
  taken p label size g s false sizes (some o) init ne ok u z named =
      subst (Zeroed zeros p label s o (sizes || s.sized o))
        (sym (
          new-kept zeros p label size o g s init (ground (arith, ne)) (ground (arith, ok)) u
            (ground (arith, ok)) named))
        (zeroed p label g s s o (sizes || s.sized o) init (ground (arith, ok)) (rw z refl) named
          refl refl)

  new-Mapped :
      (p : Proc) (label : Option (List ℕ)) (size : ℕ) (g : Grants) (s : System A) (ok init : Bool)
      (found : Option ℕ)
      → (size == 0) ≡ false
      → (g.malloc && (g.shm_open && g.mmap)) ≡ ok
      → p.is_init ≡ init
      → s.named (ipc_name s.user label) ≡ found
      → Mapped zeros p label g s ok init found (new zeros (some p) label size g s)
  new-Mapped p label size g s false init found ne refused first named =
      new-refused p label size g s _ _ _ ne refl refl refl refused
  new-Mapped p label size g s true true found ne granted first named =
      taken p label size g s _ _ found first ne granted refl refl named
  new-Mapped p label size g s true false (some o) ne granted other named =
      new-Joined p label size o g s other ne granted named
  new-Mapped p label size g s true false none ne granted other named =
      new-absent p label size g s other ne granted named

  new-sized :
      (p : Proc) (label : Option (List ℕ)) (size : ℕ) (g : Grants) (s : System A) (no_size : Bool)
      → (size == 0) ≡ no_size
      → Result zeros (some p) label no_size g s (new zeros (some p) label size g s)
  unfolding new
  new-sized p label size g s true e = rw e refl
  new-sized p label size g s false e = new-Mapped p label size g s _ _ _ e refl refl refl

-- For all arguments and whichever calls fail: `ipc_new` of a NULL process or of size 0 returns
-- NULL, with EINVAL in errno, and changes nothing else. Where `malloc`, `shm_open` or `mmap`
-- fails, or where no object has the name and the process is not init, it returns NULL and no
-- object changes. In all other cases the init process maps a new object of zeros that gets the
-- name, and another process maps the object that has the name, after its delay, and nothing
-- changes.
pub new-Result {ℓ} :
    {A : Type ℓ} (zeros : A) (proc : Option Proc) (label : Option (List ℕ)) (size : ℕ) (g : Grants)
    (s : System A)
    → Result zeros proc label (size == 0) g s (new zeros proc label size g s)
unfolding new
new-Result zeros none label size g s = refl
new-Result zeros (some p) label size g s = new-sized zeros p label size g s (size == 0) refl
