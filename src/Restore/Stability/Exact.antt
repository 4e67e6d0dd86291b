-- ===== src/Restore/Stability/Exact.antt =====
-- restore/recovery_stability.py: what a confirmation of `check_target_stability` says of the object.
use redline_os.Prelude.{
  ℕ, String, Bool, true, false, not, ◌||◌, Option, some, ◌≡◌, refl, inl, inr, nat_eq, string_eq,
  option_eq, eq_of_==, ==_refl, Bool-cases, arith,
}
use redline_os.Errors.{error_eq}
use redline_os.Exec.{
  Result, ok, err, pure, after_ok, after_ok-ok, after_ok-err, Result-cases, after_error,
}
use redline_os.Restore.Disk.{is_unsafe_link}
use redline_os.Restore.Capture.{StatFingerprint}
use redline_os.Restore.System.{System, Live, gone, inspection_failed, present, LiveStat}
use redline_os.Restore.Stability.{
  ExpectedTargetState, expected_missing, insufficient_evidence, expected_hash, expected_fingerprint,
  fingerprint, same_fingerprint, same_bool, fingerprint_matches, compare_live, hash_matches,
  unless_unsafe, check_target_stability,
}

same_fingerprint-eq : (a b : StatFingerprint) → same_fingerprint a b ≡ true → a ≡ b
same_fingerprint-eq a b h = ground arith

same_fingerprint_refl : (a : StatFingerprint) → same_fingerprint a a ≡ true
same_fingerprint_refl a = rw (==_refl a.size, ==_refl a.mtime_ns, ==_refl a.ino, ==_refl a.dev) refl

same_bool-eq : (a b : Bool) → same_bool a b ≡ true → a ≡ b
same_bool-eq a b h = ground arith

same_bool_refl : (a : Bool) → same_bool a a ≡ true
same_bool_refl true = refl
same_bool_refl false = refl

not_or-eq : (a b : Bool) → (a || not b) ≡ false → (a ≡ false) × (b ≡ true)
not_or-eq a b h = ground arith

fingerprint_matches-eq :
    (st : LiveStat) (fp : StatFingerprint) (u r : Bool)
    → fingerprint_matches st fp u r ≡ true
    → (is_unsafe_link st.mode ≡ u) × (st.mode.is_regular ≡ r) × (fingerprint st ≡ fp)
fingerprint_matches-eq st fp u r h = ground (
  arith,
  same_bool-eq (is_unsafe_link st.mode) u,
  same_bool-eq st.mode.is_regular r,
  same_fingerprint-eq (fingerprint st) fp,
)

module _ (K : System) (path : String) where
  abbrev pub IsHashed : String → Option ℕ → K.State → Type 0
  IsHashed sha256 size s =
      (n : ℕ) × ((K.hash_stable_file path s).0 ≡ ok (sha256, n)) × (some n ≡ size)

  -- What the live object has to be, of which os.lstat and then the digest are asked.
  abbrev pub IsStable : ExpectedTargetState → K.State → Type 0
  IsStable insufficient_evidence s = true ≡ false
  IsStable expected_missing s = (K.lstat path s).0 ≡ ok gone
  IsStable (expected_hash sha256 size) s =
      (st : LiveStat) × ((K.lstat path s).0 ≡ ok (present st))
      × (is_unsafe_link st.mode ≡ false)
      × (st.mode.is_regular ≡ true)
      × IsHashed sha256 size (K.lstat path s).1
  IsStable (expected_fingerprint fp expected_unsafe expected_regular) s =
      (st : LiveStat) × ((K.lstat path s).0 ≡ ok (present st))
      × (is_unsafe_link st.mode ≡ expected_unsafe)
      × (st.mode.is_regular ≡ expected_regular)
      × (fingerprint st ≡ fp)

  hash_matches-eq :
      (sha256 : String) (size : Option ℕ) (found : String × ℕ)
      → hash_matches sha256 size found ≡ true
      → (found.0 ≡ sha256) × (some found.1 ≡ size)
  hash_matches-eq sha256 size found h =
      ground (arith, eq_of_== found.0 sha256, eq_of_== (some found.1) size)

  hashed_true :
      (sha256 : String) (size : Option ℕ) (p : Result (String × ℕ) × K.State)
      → (after_error (after_ok p (λ found. pure (hash_matches sha256 size found))) unless_unsafe).0
        ≡ ok true
      → (n : ℕ) × (p.0 ≡ ok (sha256, n)) × (some n ≡ size)
  unfolding error_eq
  hashed_true sha256 size (ok found, s) h =
      let eqs = hash_matches-eq sha256 size found (ground arith) in
      (found.1, (λ i. ok (eqs.0 i, found.1)), eqs.1)
  hashed_true sha256 size (err e, s) h = ground arith

  compare-IsStable :
      (expected : ExpectedTargetState) (live : Live) (s : K.State)
      → (K.lstat path s).0 ≡ ok live
      → (compare_live K path expected live (K.lstat path s).1).0 ≡ ok true
      → IsStable expected s
  compare-IsStable insufficient_evidence live s h e = ground arith
  compare-IsStable expected_missing gone s h e = h
  compare-IsStable expected_missing inspection_failed s h e = ground arith
  compare-IsStable expected_missing (present st) s h e = ground arith
  compare-IsStable (expected_hash sha256 size) gone s h e = ground arith
  compare-IsStable (expected_hash sha256 size) inspection_failed s h e = ground arith
  compare-IsStable (expected_hash sha256 size) (present st) s h e =
      elim (Bool-cases (is_unsafe_link st.mode || not st.mode.is_regular)) [
        | inl wrong ↦ ground (arith, wrong)
        | inr safe ↦
            let both = not_or-eq (is_unsafe_link st.mode) st.mode.is_regular safe in
            (
              st,
              h,
              both.0,
              both.1,
              hashed_true sha256 size (K.hash_stable_file path (K.lstat path s).1) (rw safe at e),
            )
      ]
  compare-IsStable (expected_fingerprint fp u r) gone s h e = ground arith
  compare-IsStable (expected_fingerprint fp u r) inspection_failed s h e = ground arith
  compare-IsStable (expected_fingerprint fp u r) (present st) s h e =
      let both = fingerprint_matches-eq st fp u r (ground arith) in (st, h, both.0, both.1, both.2)

  seen-IsStable :
      (expected : ExpectedTargetState) (s : K.State)
      → (after_ok (K.lstat path s) (compare_live K path expected)).0 ≡ ok true
      → IsStable expected s
  seen-IsStable expected s h = elim (Result-cases (K.lstat path s).0) [
    | inl (e, p) ↦
        ground (arith, rw (after_ok-err (compare_live K path expected) (K.lstat path s) e p) at h)
    | inr (live, p) ↦
        compare-IsStable expected live s p
          (rw (after_ok-ok (compare_live K path expected) (K.lstat path s) live p) at h)
  ]

  -- What check_target_stability confirms is there as expected: nothing, a safe regular file with the
  -- expected digest and size, or an object with the expected safety, type and fingerprint. What has
  -- no trustworthy evidence is never confirmed.
  pub check_target_stability-IsStable :
      (expected : ExpectedTargetState) (s : K.State)
      → (check_target_stability K path expected s).0 ≡ ok true
      → IsStable expected s
  unfolding check_target_stability
  check_target_stability-IsStable insufficient_evidence s h = ground arith
  check_target_stability-IsStable expected_missing s h = seen-IsStable expected_missing s h
  check_target_stability-IsStable (expected_hash sha256 size) s h =
      seen-IsStable (expected_hash sha256 size) s h
  check_target_stability-IsStable (expected_fingerprint fp u r) s h =
      seen-IsStable (expected_fingerprint fp u r) s h
