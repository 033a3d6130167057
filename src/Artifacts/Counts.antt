-- ===== src/Artifacts/Counts.antt =====
-- The counts of the JUnit report of src/ptlab/artifacts.py.
use pinetime_dev_tools.Prelude.{
  ℕ, suc, ◌+◌, List, [], ◌∷◌, ◌++◌, length, length-append, Option, none, some, Bool, true, false,
  ◌≡◌, refl, subst, ap, arith, Bool-cases, inl, inr, String, if◌then◌else◌,
}
use pinetime_dev_tools.Prelude.Texts.{Text}
use pinetime_dev_tools.Hardware.Adb.{splitlines}
use pinetime_dev_tools.Artifacts.{
  Assertion, failure, error, skip, TestCase, TestSuite, count_failures, given_count, cases_of,
  error_cases_with, skip_cases, suite_with, suite_or_none, junit_suite, first_line,
}

abbrev pub is_failure : TestCase → Bool
is_failure c = elim c.verdict [ failure m d ↦ true | _ ↦ false ]

abbrev pub is_error : TestCase → Bool
is_error c = elim c.verdict [ error m d ↦ true | _ ↦ false ]

abbrev pub is_skip : TestCase → Bool
is_skip c = elim c.verdict [ skip m ↦ true | _ ↦ false ]

unfoldable pub count_cases : (TestCase → Bool) → List TestCase → ℕ
count_cases test [] = 0
count_cases test (c ∷ cs) = if test c then suc (count_cases test cs) else count_cases test cs

-- The counts of a suite are those of its cases.
pub record IsCounted (suite : TestSuite) : Type 0 where
  pub all_tests : suite.tests ≡ length suite.cases
  pub all_failures : suite.failures ≡ count_cases is_failure suite.cases
  pub all_errors : suite.errors ≡ count_cases is_error suite.cases
  pub all_skipped : suite.skipped ≡ count_cases is_skip suite.cases

count_cases-append :
    (test : TestCase → Bool) (xs ys : List TestCase)
    → count_cases test (xs ++ ys) ≡ count_cases test xs + count_cases test ys
unfolding count_cases
count_cases-append test [] ys = omega arith
count_cases-append test (x ∷ xs) ys = ground (arith, count_cases-append test xs ys)

length-cases_of : (made : List Assertion) → length (cases_of made) ≡ length made
unfolding cases_of
length-cases_of [] = refl
length-cases_of (a ∷ made) = ap suc (length-cases_of made)

failures-cases_of :
    (made : List Assertion) → count_cases is_failure (cases_of made) ≡ count_failures made
unfolding cases_of count_cases count_failures
failures-cases_of [] = refl
failures-cases_of (a ∷ made) = elim (Bool-cases a.is_passed) [
  | inl p ↦ rw p (failures-cases_of made)
  | inr p ↦ rw p (ap suc (failures-cases_of made))
]

errors-cases_of : (made : List Assertion) → count_cases is_error (cases_of made) ≡ 0
unfolding cases_of count_cases
errors-cases_of [] = refl
errors-cases_of (a ∷ made) = elim (Bool-cases a.is_passed) [
  | inl p ↦ rw p (errors-cases_of made)
  | inr p ↦ rw p (errors-cases_of made)
]

skips-cases_of : (made : List Assertion) → count_cases is_skip (cases_of made) ≡ 0
unfolding cases_of count_cases
skips-cases_of [] = refl
skips-cases_of (a ∷ made) = elim (Bool-cases a.is_passed) [
  | inl p ↦ rw p (skips-cases_of made)
  | inr p ↦ rw p (skips-cases_of made)
]

module _ (suite : String) (made : List Assertion) (error_text skip_reason : Option Text) where
  suite_with-IsCounted :
      (cases : List TestCase)
      → length cases ≡ given_count error_text
      → count_cases is_failure cases ≡ 0
      → count_cases is_error cases ≡ given_count error_text
      → count_cases is_skip cases ≡ 0
      → IsCounted (suite_with suite made error_text skip_reason cases)
  unfolding count_cases
  suite_with-IsCounted cases n f e k = record {
    all_tests = omega (
      arith,
      length-append (cases_of made) (cases ++ skip_cases skip_reason),
      length-append cases (skip_cases skip_reason),
      length-cases_of made,
      (length-skip skip_reason),
      n,
    );
    all_failures =
        omega (arith, parts is_failure, f, failures-cases_of made, fails-skip skip_reason);
    all_errors = omega (arith, parts is_error, e, errors-cases_of made, errors-skip skip_reason);
    all_skipped = omega (arith, parts is_skip, k, skips-cases_of made, skips-skip skip_reason);
  }
    where
      parts :
          (test : TestCase → Bool)
          → count_cases test (cases_of made ++ (cases ++ skip_cases skip_reason))
            ≡ count_cases test (cases_of made)
              + (count_cases test cases + count_cases test (skip_cases skip_reason))
      parts test = omega (
        arith,
        count_cases-append test (cases_of made) (cases ++ skip_cases skip_reason),
        count_cases-append test cases (skip_cases skip_reason),
      )

      length-skip : (o : Option Text) → length (skip_cases o) ≡ given_count o
      length-skip none = refl
      length-skip (some t) = refl

      fails-skip : (o : Option Text) → count_cases is_failure (skip_cases o) ≡ 0
      fails-skip none = refl
      fails-skip (some t) = refl

      errors-skip : (o : Option Text) → count_cases is_error (skip_cases o) ≡ 0
      errors-skip none = refl
      errors-skip (some t) = refl

      skips-skip : (o : Option Text) → count_cases is_skip (skip_cases o) ≡ given_count o
      skips-skip none = refl
      skips-skip (some t) = refl

abbrev IsCountedOrNone : Option TestSuite → Type 0
IsCountedOrNone none = Unit
IsCountedOrNone (some suite) = IsCounted suite

-- Where write_junit writes a report, the counts that its suite carries are those of the test cases
-- in it: of all, of those with a failure, of those with an error, and of those skipped.
pub junit_suite-IsCounted :
    (suite : String) (made : List Assertion) (error_text skip_reason : Option Text)
    (report : TestSuite)
    → junit_suite suite made error_text skip_reason ≡ some report
    → IsCounted report
unfolding junit_suite count_cases
junit_suite-IsCounted suite made none skip_reason report h =
    subst (λ (o : Option TestSuite). IsCountedOrNone o) h
      (suite_with-IsCounted suite made none skip_reason [] refl refl refl refl)
junit_suite-IsCounted suite made (some t) skip_reason report h = go (first_line (splitlines t)) h
  where
    go :
        (line : Option Text)
        → suite_or_none suite made (some t) skip_reason (error_cases_with t line) ≡ some report
        → IsCounted report
    go none k = cc
    go (some line) k =
        subst (λ (o : Option TestSuite). IsCountedOrNone o) k
          (suite_with-IsCounted suite made (some t) skip_reason
            (record { name = "scenario"; verdict = error line t } ∷ []) refl refl refl refl)
