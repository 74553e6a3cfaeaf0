-- ===== src/Joblog/Making.antt =====
-- The calls of joblog_init that make the directory at JOBLOG_PATH.
use csc.Base.{ℕ, ◌≡◌, ◌≢◌, refl, Bool, true, false, not, ◌&&◌, none, List, arith}
use csc.Base.Int.{pos, negsuc}
use csc.Joblog.{make_out}
use csc.Joblog.System.{
  Disk, Chances, absent, directory, other, is_absent, stat_fails, unlinked, unlink, mkdir,
}

pub mkdir-made :
    (c : Chances) (s : Disk)
    → s.out ≡ absent
    → c.mkdir ≡ true
    → ((mkdir c s).0 ≡ pos 0)
      × ((mkdir c s).1.out ≡ directory)
      × ((n : List ℕ) → (mkdir c s).1.files n ≡ none)
unfolding mkdir is_absent
mkdir-made c s e y = (ground arith, ground arith, λ n. ground arith)

pub mkdir-fails :
    (c : Chances) (s : Disk) → (is_absent s.out && c.mkdir) ≡ false → mkdir c s ≡ (negsuc 0, s)
unfolding mkdir
mkdir-fails c s y = rw y refl

pub absent_fails : (c : Chances) (s : Disk) → c.mkdir ≡ false → (is_absent s.out && c.mkdir) ≡ false
unfolding is_absent
absent_fails c s y = ground arith

pub make_out-absent :
    (b : Bool) (c : Chances) (s : Disk)
    → s.out ≡ absent
    → (t : Disk) × (t.out ≡ absent) × (make_out b c s ≡ mkdir c t)
unfolding make_out stat_fails is_absent unlink unlinked
make_out-absent true c s e = (s, e, ground arith)
make_out-absent false c s e = (unlink c s, ground arith, ground arith)

pub make_out-found :
    (b : Bool) (c : Chances) (s : Disk)
    → s.out ≢ absent
    → c.stat ≡ true
    → make_out b c s ≡ (pos 0, s)
unfolding make_out stat_fails is_absent
make_out-found b c s e y = ground arith

pub make_out-directory :
    (b : Bool) (c : Chances) (s : Disk)
    → s.out ≡ directory
    → c.stat ≡ false
    → (t : Disk) × (t.out ≡ s.out) × (t.files ≡ s.files) × (make_out b c s ≡ (negsuc 0, t))
unfolding make_out stat_fails is_absent unlink unlinked mkdir
make_out-directory true c s e y = (s, refl, refl, ground arith)
make_out-directory false c s e y = (unlink c s, ground arith, ground arith, ground arith)

pub make_out-removed :
    (b : Bool) (c : Chances) (s : Disk)
    → s.out ≡ other
    → c.stat ≡ false
    → (not b && c.unlink) ≡ true
    → (t : Disk) × (t.out ≡ absent) × (make_out b c s ≡ mkdir c t)
unfolding make_out stat_fails is_absent unlink unlinked
make_out-removed true c s e y u = cc
make_out-removed false c s e y u = (unlink c s, ground arith, ground arith)

pub make_out-stuck :
    (b : Bool) (c : Chances) (s : Disk)
    → s.out ≡ other
    → c.stat ≡ false
    → (not b && c.unlink) ≡ false
    → make_out b c s ≡ (negsuc 0, s)
unfolding make_out stat_fails is_absent unlink unlinked mkdir
make_out-stuck true c s e y u = ground arith
make_out-stuck false c s e y u = ground arith
