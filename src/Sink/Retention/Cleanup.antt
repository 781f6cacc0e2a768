-- ===== src/Sink/Retention/Cleanup.antt =====
-- A cleanup removes the expired daily files and nothing else.
use otel_logger.Prelude.{
  ℕ, ◌≡◌, refl, sym, Option, none, some, List, [], ◌∷◌, Bool, true, false, ◌&&◌, ltb, leb,
  if◌then◌else◌, Bool-cases, inl, inr, arith, Result, ok, err,
}
use otel_logger.Sink.Retention.{
  Calendar, Answer, answer, not_found, failed, DirEntry, DirItem, entry, unreadable, Dir, missing,
  untold, unlisted, listed, items_of, visit_item, cleanup_dir, daily_log_kind, is_daily, removal,
  by_age, by_name, visit, proceed, cleanup_from, cutoff_of, cleanup_old_rotated_logs,
}

module _ (cal : Calendar) where
  -- Modified before a time.
  is_older : ℕ → Answer (Option ℕ) → Bool
  is_older cutoff (answer (some t)) = ltb t cutoff
  is_older cutoff _ = false

  is_regular : Answer Bool → Bool
  is_regular (answer b) = b
  is_regular _ = false

  has_daily_name : DirEntry → Option (List ℕ) → Bool
  has_daily_name e none = false
  has_daily_name e (some name) = is_daily (daily_log_kind cal name)

  -- A regular file with the name of a daily file of which the system tells that it was modified
  -- before a time.
  unfoldable pub is_expired : ℕ → DirEntry → Bool
  unfolding is_older is_regular has_daily_name
  is_expired cutoff e =
      is_regular e.is_file && (has_daily_name e e.file_name && is_older cutoff e.modified)

  is_expired_item : ℕ → DirItem → Bool
  is_expired_item cutoff (entry e) = is_expired cutoff e
  is_expired_item cutoff unreadable = false

  unfoldable pub unexpired : ℕ → List DirItem → List DirItem
  unfolding is_expired_item
  unexpired cutoff [] = []
  unexpired cutoff (i ∷ is) =
      let rest = unexpired cutoff is in if is_expired_item cutoff i then rest else i ∷ rest

  abbrev Says : Bool → Result (Unit {0}) Bool → Type 0
  Says b (ok gone) = gone ≡ b
  Says b (err e) = Unit

  Says-removal : (r : Answer (Unit {0})) → Says true (removal r)
  unfolding removal
  Says-removal (answer _) = refl
  Says-removal not_found = refl
  Says-removal failed = tt

  Says-by_age :
      (cutoff : ℕ) (e : DirEntry) (m : Answer (Option ℕ))
      → Says (is_older cutoff m) (by_age cutoff e m)
  unfolding is_older by_age
  Says-by_age cutoff e (answer (some t)) = elim (Bool-cases (leb cutoff t)) [
    | inl k ↦ rw k (ground arith)
    | inr k ↦
        let older : ltb t cutoff ≡ true = ground arith in rw (k, older) (Says-removal e.remove_file)
  ]
  Says-by_age cutoff e (answer none) = refl
  Says-by_age cutoff e not_found = refl
  Says-by_age cutoff e failed = tt

  Says-by_name :
      (cutoff : ℕ) (e : DirEntry) (name : Option (List ℕ))
      → Says (has_daily_name e name && is_older cutoff e.modified) (by_name cal cutoff e name)
  unfolding has_daily_name by_name
  Says-by_name cutoff e none = refl
  Says-by_name cutoff e (some name) = elim (Bool-cases (is_daily (daily_log_kind cal name))) [
    | inl k ↦ rw k (Says-by_age cutoff e e.modified)
    | inr k ↦ rw k refl
  ]

  Says-visit :
      (cutoff : ℕ) (e : DirEntry) (f : Answer Bool)
      → Says
          (is_regular f && (has_daily_name e e.file_name && is_older cutoff e.modified))
          (visit cal cutoff e f)
  unfolding is_regular visit
  Says-visit cutoff e (answer true) = Says-by_name cutoff e e.file_name
  Says-visit cutoff e (answer false) = refl
  Says-visit cutoff e not_found = refl
  Says-visit cutoff e failed = tt

  Says-visit_item :
      (cutoff : ℕ) (i : DirItem) → Says (is_expired_item cutoff i) (visit_item cal cutoff i)
  unfolding is_expired_item visit_item is_expired
  Says-visit_item cutoff (entry e) = Says-visit cutoff e e.is_file
  Says-visit_item cutoff unreadable = tt

  abbrev UnitResult : Type 0
  UnitResult = Result (Unit {0}) (Unit {0}) × List DirItem

  -- A round of the loop, over what is known of the rest.
  proceed-keeps :
      (cutoff : ℕ) (r : Result (Unit {0}) Bool) (e : DirItem) (es : List DirItem)
      (rest : UnitResult)
      → Says (is_expired_item cutoff e) r
      → unexpired cutoff rest.1 ≡ unexpired cutoff es
      → unexpired cutoff (proceed r e es rest).1 ≡ unexpired cutoff (e ∷ es)
  unfolding proceed unexpired
  proceed-keeps cutoff (err x) e es rest s h = refl
  proceed-keeps cutoff (ok true) e es rest s h = rw (sym s) h
  proceed-keeps cutoff (ok false) e es rest s h = rw (sym s, h) refl

  proceed-exact :
      (cutoff : ℕ) (r : Result (Unit {0}) Bool) (e : DirItem) (es : List DirItem)
      (rest : UnitResult)
      → Says (is_expired_item cutoff e) r
      → (rest.0 ≡ ok tt → rest.1 ≡ unexpired cutoff es)
      → (proceed r e es rest).0 ≡ ok tt
      → (proceed r e es rest).1 ≡ unexpired cutoff (e ∷ es)
  unfolding proceed unexpired
  proceed-exact cutoff (err x) e es rest s h q = cc
  proceed-exact cutoff (ok true) e es rest s h q = rw (sym s) (h q)
  proceed-exact cutoff (ok false) e es rest s h q = rw (sym s, h q) refl

  cleanup_from-keeps :
      (cutoff : ℕ) (es : List DirItem)
      → unexpired cutoff (cleanup_from cal cutoff es).1 ≡ unexpired cutoff es
  unfolding cleanup_from
  cleanup_from-keeps cutoff [] = refl
  cleanup_from-keeps cutoff (e ∷ es) =
      proceed-keeps cutoff (visit_item cal cutoff e) e es (cleanup_from cal cutoff es)
        (Says-visit_item cutoff e) (cleanup_from-keeps cutoff es)

  cleanup_from-exact :
      (cutoff : ℕ) (es : List DirItem)
      → (cleanup_from cal cutoff es).0 ≡ ok tt
      → (cleanup_from cal cutoff es).1 ≡ unexpired cutoff es
  unfolding cleanup_from
  cleanup_from-exact cutoff [] q = unfold unexpired in refl
  cleanup_from-exact cutoff (e ∷ es) q =
      proceed-exact cutoff (visit_item cal cutoff e) e es (cleanup_from cal cutoff es)
        (Says-visit_item cutoff e) (cleanup_from-exact cutoff es) q

  -- A cleanup, whatever its calls answer, leaves in their order all entries but regular files with
  -- the name of a daily file of which the system tells that they were modified before the cutoff.
  pub cleanup_old_rotated_logs-keeps :
      (now keep_days : ℕ) (dir : Dir)
      → unexpired (cutoff_of now keep_days) (cleanup_old_rotated_logs cal now keep_days dir).1
        ≡ unexpired (cutoff_of now keep_days) (items_of dir)
  unfolding cleanup_old_rotated_logs cleanup_dir items_of
  cleanup_old_rotated_logs-keeps now keep_days missing = refl
  cleanup_old_rotated_logs-keeps now keep_days (untold is) = refl
  cleanup_old_rotated_logs-keeps now keep_days (unlisted is) = refl
  cleanup_old_rotated_logs-keeps now keep_days (listed is) =
      cleanup_from-keeps (cutoff_of now keep_days) is

  -- A cleanup that answers Ok has left, in their order, exactly the entries that are not expired. An
  -- entry is expired when the system tells that it is a regular file, its name is text and that of a
  -- daily file, and the system tells a time of its last modification that is before the cutoff: one
  -- whose kind or time is not told, or that vanished before it was told, is not.
  pub cleanup_old_rotated_logs-exact :
      (now keep_days : ℕ) (dir : Dir)
      → (cleanup_old_rotated_logs cal now keep_days dir).0 ≡ ok tt
      → (cleanup_old_rotated_logs cal now keep_days dir).1
        ≡ unexpired (cutoff_of now keep_days) (items_of dir)
  unfolding cleanup_old_rotated_logs cleanup_dir items_of unexpired
  cleanup_old_rotated_logs-exact now keep_days missing h = refl
  cleanup_old_rotated_logs-exact now keep_days (untold is) h = cc
  cleanup_old_rotated_logs-exact now keep_days (unlisted is) h = cc
  cleanup_old_rotated_logs-exact now keep_days (listed is) h =
      cleanup_from-exact (cutoff_of now keep_days) is h
