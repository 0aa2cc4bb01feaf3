-- ===== src/Direct/Loop.antt =====
-- The loop over the changes of a plan in `DirectSubstrate::apply`
-- (crates/turbovault-vault/src/substrate.rs), against the abstract run of the changes.
use turbovault.Common.{
  ℕ, zero, suc, ◌+◌, String, ◌≡◌, refl, ap, sym, ◌∙◌, inl, inr, Bool, false, Option, none, some,
  List, [], ◌∷◌, arith, ◌==◌, take, drop, All, All-append, All-split,
}
use turbovault.Core.Error.{Error, ok, err, Result-cases}
use turbovault.Core.Plan.{Bytes, Change, upsert, remove, rename, touched, change_paths}
use turbovault.Direct.Disk.{Disk, DiskLaws, content}
use turbovault.Direct.Apply.{do_change, apply_loop}
use turbovault.Core.Plan.Effect.{apply_change, apply_changes, Agree, apply_changes-Agree}
use turbovault.Direct.Changes.{
  do_upsert-ok, do_upsert-err, do_remove-ok, do_remove-err, do_rename-ok, do_rename-err,
}

-- The path whose old file a failed change may have lost: the target of a move.
abbrev pub may_spoil : Change → String → Bool
may_spoil (rename from to) q = to == q
may_spoil (upsert p c) q = false
may_spoil (remove p) q = false

-- The changes with the vault's paths replaced by the disk paths that they lead to.
abbrev pub locate : (String → String) → Change → Change
locate join (upsert p c) = upsert (join p) c
locate join (remove p) = remove (join p)
locate join (rename from to) = rename (join from) (join to)

abbrev pub located : (String → String) → List Change → List Change
located join [] = []
located join (c ∷ cs) = locate join c ∷ located join cs

All-touched-take {κ} :
    (P : String → Type κ) (join : String → String) (k : ℕ) (cs : List Change)
    → All P (touched (located join cs))
    → All P (touched (located join (take k cs)))
unfolding touched
All-touched-take P join zero cs h = tt
All-touched-take P join (suc k) [] h = tt
All-touched-take P join (suc k) (c ∷ cs) h =
    let now = change_paths (locate join c) in
    let (here, later) = All-split P now (touched (located join cs)) h in
    All-append P now (touched (located join (take k cs))) here (All-touched-take P join k cs later)

module _ {Json : Type 0} (d : Disk Json) (laws : DiskLaws d) where
  -- A disk path that is not one of the audit log's own files.
  abbrev pub IsNote : String → Type 0
  IsNote q = laws.is_own q ≡ false

  do_change-ok :
      (audit : Bool) (m : Option Json) (c : Change) (s : d.State)
      → (do_change d audit m c s).0 ≡ ok tt
      → Agree IsNote
          (content d (do_change d audit m c s).1)
          (apply_change (content d s) (locate d.join c))
  unfolding do_change apply_change
  do_change-ok audit m (upsert p c) s h q own = do_upsert-ok d laws audit p c m q s own h
  do_change-ok audit m (remove p) s h q own = do_remove-ok d laws audit p m q s own h
  do_change-ok audit m (rename from to) s h q own = do_rename-ok d laws audit from to m q s own h

  do_change-err :
      (audit : Bool) (m : Option Json) (c : Change) (s : d.State) (e : Error) (q : String)
      (b : Bytes)
      → (do_change d audit m c s).0 ≡ err e
      → may_spoil (locate d.join c) q ≡ false
      → content d s q ≡ some b
      → content d (do_change d audit m c s).1 q ≡ some b
  unfolding do_change
  do_change-err audit m (upsert p c) s e q b h ne old =
      do_upsert-err d laws audit p c b m q s e h old
  do_change-err audit m (remove p) s e q b h ne old = do_remove-err d laws audit p m q s e h ∙ old
  do_change-err audit m (rename from to) s e q b h ne old =
      do_rename-err d laws audit from to m q s e h ne ∙ old

  loop-ok :
      (audit : Bool) (m : Option Json) (idx : ℕ) (c : Change) (cs : List Change) (s : d.State)
      {u : Unit {0}}
      → (do_change d audit m c s).0 ≡ ok u
      → apply_loop d audit m idx (c ∷ cs) s
        ≡ apply_loop d audit m (suc idx) cs (do_change d audit m c s).1
  unfolding apply_loop
  loop-ok audit m idx c cs s h = rw (h, apply_loop)

  loop-err :
      (audit : Bool) (m : Option Json) (idx : ℕ) (c : Change) (cs : List Change) (s : d.State)
      (e : Error)
      → (do_change d audit m c s).0 ≡ err e
      → apply_loop d audit m idx (c ∷ cs) s ≡ (some (idx, e), (do_change d audit m c s).1)
  unfolding apply_loop
  loop-err audit m idx c cs s e h = rw (h, apply_loop)

  -- When no change fails, the files are those of the abstract run.
  pub loop_done :
      (audit : Bool) (m : Option Json) (idx : ℕ) (cs : List Change) (s : d.State)
      → All IsNote (touched (located d.join cs))
      → (apply_loop d audit m idx cs s).0 ≡ none
      → Agree IsNote
          (content d (apply_loop d audit m idx cs s).1)
          (apply_changes (content d s) (located d.join cs))
  unfolding touched apply_changes
  loop_done audit m idx [] s n h q own = unfold apply_loop in refl
  loop_done audit m idx (c ∷ cs) s n h q own =
      let s1 = (do_change d audit m c s).1 in
      let later =
        (All-split IsNote (change_paths (locate d.join c)) (touched (located d.join cs)) n).1 in
      elim (Result-cases (do_change d audit m c s).0) [
        | inr (e, r) ↦
            absurd (
              cc (ap (λ (x : Option (ℕ × Error) × d.State). x.0) (loop-err audit m idx c cs s e r)))
        | inl (u, r) ↦
            let same = loop-ok audit m idx c cs s r in
            ap (λ (x : Option (ℕ × Error) × d.State). content d x.1 q) same
            ∙ loop_done audit m (suc idx) cs s1 later
                (ap (λ (x : Option (ℕ × Error) × d.State). x.0) (sym same) ∙ h) q own
            ∙ apply_changes-Agree IsNote (content d s1)
                (apply_change (content d s) (locate d.join c)) (located d.join cs) later
                (do_change-ok audit m c s r) q own
      ]

  -- When a change fails, the ones before it have landed, and no file that was there then is lost
  -- but what the failed change may spoil.
  unfoldable pub Stopped : ℕ → List Change → d.State → ℕ × Error → d.State → Type 0
  Stopped idx cs s (i, e) s' =
      (k : ℕ) × (c : Change) × (rest : List Change) × (i ≡ idx + k)
      × (drop k cs ≡ c ∷ rest)
      × ((q : String) (b : Bytes)
          → IsNote q
          → may_spoil (locate d.join c) q ≡ false
          → apply_changes (content d s) (located d.join (take k cs)) q ≡ some b
          → content d s' q ≡ some b)

  pub loop-Stopped :
      (audit : Bool) (m : Option Json) (idx : ℕ) (cs : List Change) (s : d.State) (x : ℕ × Error)
      → All IsNote (touched (located d.join cs))
      → (apply_loop d audit m idx cs s).0 ≡ some x
      → Stopped idx cs s x (apply_loop d audit m idx cs s).1
  unfolding touched apply_changes Stopped
  loop-Stopped audit m idx [] s x n h = unfold apply_loop in cc
  loop-Stopped audit m idx (c ∷ cs) s x n h =
      let s1 = (do_change d audit m c s).1 in
      let later =
        (All-split IsNote (change_paths (locate d.join c)) (touched (located d.join cs)) n).1 in
      elim (Result-cases (do_change d audit m c s).0) [
        | inr (e, r) ↦
            let here = loop-err audit m idx c cs s e r in
            let this : some (idx, e) ≡ some x =
              ap (λ (y : Option (ℕ × Error) × d.State). y.0) (sym here) ∙ h in
            (
              0,
              c,
              cs,
              ground arith,
              refl,
              (λ q b own ne old.
                  ap (λ (y : Option (ℕ × Error) × d.State). content d y.1 q) here
                  ∙ do_change-err audit m c s e q b r ne old),
            )
        | inl (u, r) ↦
            let same = loop-ok audit m idx c cs s r in
            let (k, c', rest, at, split, kept) =
              loop-Stopped audit m (suc idx) cs s1 x later
                (ap (λ (y : Option (ℕ × Error) × d.State). y.0) (sym same) ∙ h) in
            (
              suc k,
              c',
              rest,
              omega arith,
              split,
              (λ q b own ne old.
                  ap (λ (y : Option (ℕ × Error) × d.State). content d y.1 q) same
                  ∙ kept q b own ne (
                      apply_changes-Agree IsNote (content d s1)
                        (apply_change (content d s) (locate d.join c)) (located d.join (take k cs))
                        (All-touched-take IsNote d.join k cs later) (do_change-ok audit m c s r) q
                        own
                      ∙ old)),
            )
      ]
