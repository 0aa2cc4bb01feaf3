-- ===== src/Git/Error.antt =====
-- crates/turbovault-git/src/error.rs, and the steps of the git backend: what was written before an
-- error stays written.
use turbovault.Common.{◌≡◌, refl, Option, some, none, ◌⊎◌, inl, inr}
use turbovault.Core.Error.{IoError, Error, io, concurrency_error, other, Fallible, ok, err}

pub data GitError : Type 0 where
  not_a_repo git : GitError
  core : Error → GitError

-- Error::concurrency, Error::other, and `From<std::io::Error>`
abbrev pub concurrency : GitError
concurrency = core concurrency_error

abbrev pub other_error : GitError
other_error = core other

abbrev pub from_io : IoError → GitError
from_io e = core (io e)

-- `Result<T, git2::Error>`: the callers tell the code `NotFound` from all others.
pub data Git2 {u} (T : Type u) : Type u where
  got : T → Git2 T
  missing broken : Git2 T

-- The `?` operator on an answer of git2.
abbrev pub lift {u} : {T : Type u} → Git2 T → Fallible GitError T
lift (got t) = ok t
lift missing = err git
lift broken = err git

-- Only `NotFound` is an absent value; any other error is passed on.
abbrev pub optional {u} : {T : Type u} → Git2 T → Fallible GitError (Option T)
optional (got t) = ok (some t)
optional missing = ok none
optional broken = err git

abbrev pub Exec : Type 0 → Type 0 → Type 0
Exec S T = S → Fallible GitError T × S

infixl 5 ◌and_then◌
abbrev pub ◌and_then◌ :
    {S T W : Type 0} → Fallible GitError T × S → (T → Exec S W) → Fallible GitError W × S
(ok t, s) and_then k = k t s
(err e, s) and_then k = (err e, s)

pub and_then-ok :
    {S T W : Type 0} {w : W} {s' : S} (m : Fallible GitError T × S) (k : T → Exec S W)
    → (m and_then k) ≡ (ok w, s')
    → (t : T) × (s : S) × (m ≡ (ok t, s)) × (k t s ≡ (ok w, s'))
and_then-ok (ok t, s) k h = (t, s, refl, h)
and_then-ok (err e, s) k h = cc

pub lift-ok : {T : Type 0} {t : T} (m : Git2 T) → lift m ≡ ok t → m ≡ got t
lift-ok (got t) h = cc
lift-ok missing h = cc
lift-ok broken h = cc

pub Git2-cases :
    {T : Type 0} (m : Git2 T) → ((t : T) × (m ≡ got t)) ⊎ ((m ≡ missing) ⊎ (m ≡ broken))
Git2-cases (got t) = inl (t, refl)
Git2-cases missing = inr (inl refl)
Git2-cases broken = inr (inr refl)
