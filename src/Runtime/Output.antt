-- ===== src/Runtime/Output.antt =====
-- How much output the agent keeps of a command.
use mathlib.Core.List.{append-nil}
use matrix_scanner_saas.Prelude.{
  ℕ, zero, suc, ◌+◌, ◌-◌, ◌≤◌, ◌<◌, ◌≡◌, ◌⊎◌, refl, sym, ap, inl, inr, some, ◌++◌, Bool, true,
  false, List, [], ◌∷◌, ◌==◌, leb, arith, Bool-cases, Option-cases,
}
use matrix_scanner_saas.Prelude.Results.{ok}
use matrix_scanner_saas.Text.{Text}
use matrix_scanner_saas.Json.{ℤ, pos, negsuc}
use matrix_scanner_saas.Redaction.{Python, redact_secrets}
use matrix_scanner_saas.Runtime.{
  Machine, Outcome, finished, timed_out, os_error, SafeExecResult, utf8_size, encoded_size,
  truncate_bytes, truncate_output, positive, is_argv, capped_result, ran, run_fixed_command,
}

utf8_size-range : (c : ℕ) → (1 ≤ utf8_size c) × (utf8_size c ≤ 4)
unfolding utf8_size
utf8_size-range c = ground arith

replacement_size : encoded_size (65533 ∷ []) ≡ 3
unfolding encoded_size utf8_size
replacement_size = refl

-- The cut replaces at most one character by one of three bytes.
encoded_size-truncate_bytes : (n : ℕ) (s : Text) → encoded_size (truncate_bytes n s) ≤ n + 2
unfolding truncate_bytes encoded_size
encoded_size-truncate_bytes n [] = omega arith
encoded_size-truncate_bytes n (c ∷ s) = elim (Bool-cases (leb (utf8_size c) n)) [
  | inl fits ↦ ground (arith, fits, encoded_size-truncate_bytes (n - utf8_size c) s)
  | inr cut ↦ elim (Bool-cases (n == 0)) [
    | inl spent ↦ ground (arith, cut, spent)
    | inr left ↦ ground (arith, cut, left, replacement_size)
  ]
]

-- Of a text that is long enough no byte is lost.
truncate_bytes-filled :
    (n : ℕ) (s : Text) → n ≤ encoded_size s → n ≤ encoded_size (truncate_bytes n s)
unfolding truncate_bytes encoded_size
truncate_bytes-filled n [] h = ground (arith, h)
truncate_bytes-filled n (c ∷ s) h = elim (Bool-cases (leb (utf8_size c) n)) [
  | inl fits ↦
      let rest = truncate_bytes-filled (n - utf8_size c) s (ground (arith, fits, h)) in
      ground (arith, fits, rest)
  | inr cut ↦ elim (Bool-cases (n == 0)) [
    | inl spent ↦ ground (arith, cut, spent)
    | inr left ↦ ground (arith, cut, left, replacement_size, utf8_size-range c)
  ]
]

-- `kept` is the beginning of `s`, with U+FFFD after it where a character was cut.
pub record Begins (kept s : Text) : Type 0 where
  pub beginning : Text
  pub rest : Text
  pub of_text : s ≡ beginning ++ rest
  pub is_kept : (kept ≡ beginning) ⊎ (kept ≡ beginning ++ (65533 ∷ []))

Begins-whole : (s : Text) → Begins s s
Begins-whole s = record {
  beginning = s;
  rest = [];
  of_text = sym (append-nil s);
  is_kept = inl refl;
}

Begins-nothing : (s : Text) → Begins [] s
Begins-nothing s = record { beginning = []; rest = s; of_text = refl; is_kept = inl refl }

Begins-further : (c : ℕ) (kept s : Text) → Begins kept s → Begins (c ∷ kept) (c ∷ s)
Begins-further c kept s b = record {
  beginning = c ∷ b.beginning;
  rest = b.rest;
  of_text = ap (λ t. c ∷ t) b.of_text;
  is_kept = elim b.is_kept [
    | inl same ↦ inl (ap (λ t. c ∷ t) same)
    | inr cut ↦ inr (ap (λ t. c ∷ t) cut)
  ];
}

truncate_bytes-Begins : (n : ℕ) (s : Text) → Begins (truncate_bytes n s) s
unfolding truncate_bytes
truncate_bytes-Begins n [] = Begins-nothing []
truncate_bytes-Begins n (c ∷ s) = elim (Bool-cases (leb (utf8_size c) n)) [
  | inl fits ↦ rw fits (
      Begins-further c (truncate_bytes (n - utf8_size c) s) s
        (truncate_bytes-Begins (n - utf8_size c) s))
  | inr cut ↦ elim (Bool-cases (n == 0)) [
    | inl spent ↦ rw (cut, spent) (Begins-nothing (c ∷ s))
    | inr left ↦
        rw (cut, left) (record { beginning = []; rest = c ∷ s; of_text = refl; is_kept = inr refl })
  ]
]

truncate_output-Begins :
    (stdout stderr : Text) (max : ℕ)
    → Begins (truncate_output stdout stderr max).0 stdout
      × Begins (truncate_output stdout stderr max).1 stderr
unfolding truncate_output
truncate_output-Begins stdout stderr max = elim (Bool-cases (leb max (encoded_size stdout))) [
  | inl long ↦ rw long (truncate_bytes-Begins max stdout, Begins-nothing stderr)
  | inr short ↦
      rw short (Begins-whole stdout, truncate_bytes-Begins (max - encoded_size stdout) stderr)
]

-- What a result keeps of the two outputs. What fits is kept as it is. Of what does not fit the beginnings
-- are kept: no more than the cap, and two bytes where a character was cut, and the whole cap.
pub record IsKept (max : ℕ) (stdout stderr : Text) (result : SafeExecResult) : Type 0 where
  pub untouched :
      encoded_size stdout + encoded_size stderr ≤ max
      → (result.stdout ≡ stdout) × (result.stderr ≡ stderr) × (result.truncated ≡ false)
  pub flagged : max < encoded_size stdout + encoded_size stderr → result.truncated ≡ true
  pub begins_stdout : Begins result.stdout stdout
  pub begins_stderr : Begins result.stderr stderr
  pub bounded : encoded_size result.stdout + encoded_size result.stderr ≤ max + 2
  pub filled :
      result.truncated ≡ true → max ≤ encoded_size result.stdout + encoded_size result.stderr

truncate_output-range :
    (stdout stderr : Text) (max : ℕ)
    → max < encoded_size stdout + encoded_size stderr
    → (encoded_size (truncate_output stdout stderr max).0
          + encoded_size (truncate_output stdout stderr max).1
        ≤ max + 2)
      × (max
          ≤ encoded_size (truncate_output stdout stderr max).0
            + encoded_size (truncate_output stdout stderr max).1)
unfolding truncate_output encoded_size
truncate_output-range stdout stderr max h = elim (Bool-cases (leb max (encoded_size stdout))) [
  | inl long ↦ ground (
    arith,
    long,
    encoded_size-truncate_bytes max stdout,
    truncate_bytes-filled max stdout (ground (arith, long)),
  )
  | inr short ↦
      let left = max - encoded_size stdout in
      let lower = truncate_bytes-filled left stderr (ground (arith, short, h)) in
      ground (arith, short, encoded_size-truncate_bytes left stderr, lower)
]

module _ (py : Python) (machine : Machine) where
  capped_result-IsKept :
      (max : ℕ) (truncating : Bool) (returncode : ℤ) (stdout stderr seconds : Text)
      (result : SafeExecResult)
      → capped_result py machine max truncating returncode stdout stderr seconds ≡ ok result
      → (result.returncode ≡ returncode) × IsKept max stdout stderr result
  unfolding capped_result
  capped_result-IsKept max truncating returncode stdout stderr seconds result h =
      elim (Bool-cases (leb (encoded_size stdout + encoded_size stderr) max)) [
        | inl small ↦
            let same : record {
              returncode = returncode;
              stdout = stdout;
              stderr = stderr;
              execution_time_seconds = seconds;
              truncated = false;
            }
                ≡ result =
              ground (arith, small) in
            let fits : encoded_size stdout + encoded_size stderr ≤ max = ground (arith, small) in
            rw⁻¹ same (
              refl,
              record {
                untouched = λ e. (refl, refl, refl);
                flagged = λ e. absurd (omega (arith, fits, e));
                begins_stdout = Begins-whole stdout;
                begins_stderr = Begins-whole stderr;
                bounded = omega (arith, fits);
                filled = λ e. absurd (ground arith);
              },
            )
        | inr large ↦ elim (Bool-cases truncating) [
          | inr strict ↦ absurd (ground (arith, large, strict))
          | inl loose ↦
              let cut = truncate_output stdout stderr max in
              let same : record {
                returncode = returncode;
                stdout = cut.0;
                stderr = cut.1;
                execution_time_seconds = seconds;
                truncated = true;
              }
                  ≡ result =
                ground (arith, large, loose) in
              let over : max < encoded_size stdout + encoded_size stderr = ground (arith, large) in
              let range = truncate_output-range stdout stderr max over in
              let begins = truncate_output-Begins stdout stderr max in
              rw⁻¹ same (
                refl,
                record {
                  untouched = λ e. absurd (omega (arith, over, e));
                  flagged = λ e. refl;
                  begins_stdout = begins.0;
                  begins_stderr = begins.1;
                  bounded = range.0;
                  filled = λ e. range.1;
                },
              )
        ]
      ]

  -- `result` is of the process that was started with the arguments and the timeout, and that has ended
  -- with this exit code and these two outputs.
  pub record IsOutput (argv : List Text) (timeout_seconds : ℤ) (max : ℕ) (result : SafeExecResult)
      : Type 0 where
    pub seconds : ℕ
    pub returncode : ℤ
    pub stdout : Text
    pub stderr : Text
    pub duration : Text
    pub limit : timeout_seconds ≡ pos seconds
    pub limited : 0 < seconds
    pub ended : machine.spawn argv seconds ≡ finished returncode stdout stderr duration
    pub returned : result.returncode ≡ returncode
    pub kept : IsKept max stdout (redact_secrets py stderr) result

  positive-IsPositive :
      (n : ℤ) (seconds : ℕ) → positive n ≡ some seconds → (n ≡ pos seconds) × (0 < seconds)
  positive-IsPositive (pos zero) seconds h = absurd (ground arith)
  positive-IsPositive (pos (suc n)) seconds h = (ground arith, ground arith)
  positive-IsPositive (negsuc n) seconds h = absurd (ground arith)

  ran-IsOutput :
      (argv : List Text) (timeout_seconds : ℤ) (seconds max : ℕ) (truncating : Bool)
      (outcome : Outcome) (result : SafeExecResult)
      → positive timeout_seconds ≡ some seconds
      → machine.spawn argv seconds ≡ outcome
      → ran py machine max truncating outcome ≡ ok result
      → IsOutput argv timeout_seconds max result
  ran-IsOutput argv timeout_seconds seconds max truncating
        (finished returncode stdout stderr duration) result some_time started h =
      let (limit, limited) = positive-IsPositive timeout_seconds seconds some_time in
      let (returned, kept) =
        capped_result-IsKept max truncating returncode stdout (redact_secrets py stderr) duration
          result h in
      record {
        seconds = seconds;
        returncode = returncode;
        stdout = stdout;
        stderr = stderr;
        duration = duration;
        limit = limit;
        limited = limited;
        ended = started;
        returned = returned;
        kept = kept;
      }
  ran-IsOutput argv timeout_seconds seconds max truncating (timed_out stderr) result t started h =
      absurd (ground arith)
  ran-IsOutput argv timeout_seconds seconds max truncating (os_error text) result t started h =
      absurd (ground arith)

  -- A run that gives a result has started the process.
  run_fixed_command-ran :
      (argv : List Text) (timeout_seconds : ℤ) (max : ℕ) (truncating : Bool)
      (result : SafeExecResult)
      → run_fixed_command py machine argv timeout_seconds (pos max) truncating ≡ ok result
      → (seconds : ℕ) × (positive timeout_seconds ≡ some seconds)
        × (ran py machine max truncating (machine.spawn argv seconds) ≡ ok result)
  unfolding run_fixed_command
  run_fixed_command-ran argv timeout_seconds zero truncating result h =
      elim (Bool-cases (is_argv argv)) [
        | inr bad ↦ absurd (ground (arith, bad))
        | inl good ↦ elim (Option-cases (positive timeout_seconds)) [
          | inl never ↦ absurd (ground (arith, good, never))
          | inr (seconds, limit) ↦ absurd (ground (arith, good, limit))
        ]
      ]
  run_fixed_command-ran argv timeout_seconds (suc max) truncating result h =
      elim (Bool-cases (is_argv argv)) [
        | inr bad ↦ absurd (ground (arith, bad))
        | inl good ↦ elim (Option-cases (positive timeout_seconds)) [
          | inl never ↦ absurd (ground (arith, good, never))
          | inr (seconds, limit) ↦ (seconds, limit, ground (arith, good, limit))
        ]
      ]

  -- A result of `run_fixed_command` is that of the process with these arguments and this timeout, which
  -- is positive, and that process has ended. The result has its exit code. Its output and its error
  -- output, which is redacted first, are kept as they are, and not said to be cut, if as UTF-8 they are
  -- together at most as long as the cap. If they are longer, the result says that they are cut. It
  -- keeps a beginning of each, where a character that is cut becomes U+FFFD, together at least as long
  -- as the cap and at most two bytes longer.
  pub run_fixed_command-IsKept :
      (argv : List Text) (timeout_seconds : ℤ) (max : ℕ) (truncating : Bool)
      (result : SafeExecResult)
      → run_fixed_command py machine argv timeout_seconds (pos max) truncating ≡ ok result
      → IsOutput argv timeout_seconds max result
  run_fixed_command-IsKept argv timeout_seconds max truncating result h =
      let (seconds, limit, done) =
        run_fixed_command-ran argv timeout_seconds max truncating result h in
      ran-IsOutput argv timeout_seconds seconds max truncating (machine.spawn argv seconds) result
        limit refl done
