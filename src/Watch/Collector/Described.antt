-- ===== src/Watch/Collector/Described.antt =====
-- What is collected fits what is described, and the counts by exit code add up.
use baamhackl.Base.{
  ℕ, suc, ◌+◌, false, List, [], ◌∷◌, ◌++◌, length, ◌≡◌, refl, ◌⊎◌, inl, inr, ◌∙◌, ap, All, arith,
  Bool-cases,
}
use baamhackl.Base.Int.{ℤ}
use baamhackl.FilePaths.{FilePath}
use baamhackl.Watch.Collector.{
  MetricName, label_count, Sample, Collector, new_collector, same_code, count_code, Report, changed,
  process_ended, retried, ended, report, describe, code_samples, collect, command_exit_code_total,
  handler_info, pending_total, file_changes_total, command_wall_time, command_user_time,
  command_system_time, retries_total, finished_total, failures_total,
}

abbrev pub IsIn : {A : Type 0} → A → List A → Type 0
IsIn x [] = ⊥
IsIn x (y ∷ ys) = (x ≡ y) ⊎ IsIn x ys

-- The sample has a description, with as many labels.
abbrev pub IsDescribed : {F : Type 0} → Sample F → Type 0
IsDescribed s = IsIn s.name describe × (length s.labels ≡ label_count s.name)

-- No code has two entries.
abbrev pub AreDistinct : List (ℤ × ℕ) → Type 0
AreDistinct [] = Unit
AreDistinct ((c, n) ∷ cs) = All (λ (p : ℤ × ℕ). same_code c p.0 ≡ false) cs × AreDistinct cs

abbrev pub sum_counts : List (ℤ × ℕ) → ℕ
sum_counts [] = 0
sum_counts ((c, n) ∷ cs) = n + sum_counts cs

count_code-apart :
    (c code : ℤ) (cs : List (ℤ × ℕ))
    → same_code c code ≡ false
    → All (λ (p : ℤ × ℕ). same_code c p.0 ≡ false) cs
    → All (λ (p : ℤ × ℕ). same_code c p.0 ≡ false) (count_code code cs)
unfolding count_code
count_code-apart c code [] e h = (e, tt)
count_code-apart c code ((d, n) ∷ cs) e (h, hs) = elim (Bool-cases (same_code d code)) [
  | inl p ↦ rw p (h, hs)
  | inr p ↦ rw p (h, count_code-apart c code cs e hs)
]

count_code-AreDistinct :
    (code : ℤ) (cs : List (ℤ × ℕ)) → AreDistinct cs → AreDistinct (count_code code cs)
unfolding count_code
count_code-AreDistinct code [] h = (tt, tt)
count_code-AreDistinct code ((d, n) ∷ cs) (h, hs) = elim (Bool-cases (same_code d code)) [
  | inl p ↦ rw p (h, hs)
  | inr p ↦ rw p (count_code-apart d code cs p h, count_code-AreDistinct code cs hs)
]

count_code-sum :
    (code : ℤ) (cs : List (ℤ × ℕ)) → sum_counts (count_code code cs) ≡ suc (sum_counts cs)
unfolding count_code
count_code-sum code [] = omega arith
count_code-sum code ((d, n) ∷ cs) =
    let ih = count_code-sum code cs in
    elim (Bool-cases (same_code d code)) [
      | inl p ↦ rw p (omega arith)
      | inr p ↦ rw p (omega (arith, ih))
    ]

-- The collector after some reports, the first of the list last.
unfoldable pub reported : {F : Type 0} → FilePath → List (Report F) → Collector F
reported path [] = new_collector path
reported path (r ∷ rs) = report (reported path rs) r

pub record Inv {F : Type 0} (c : Collector F) : Type 0 where
  pub distinct : AreDistinct c.exit_codes
  pub adds_up : sum_counts c.exit_codes ≡ length c.wall_times

report-Inv : {F : Type 0} (c : Collector F) (r : Report F) → Inv c → Inv (report c r)
unfolding report
report-Inv c changed v = record { distinct = v.distinct; adds_up = v.adds_up }
report-Inv c (process_ended code wall user system) v = record {
  distinct = count_code-AreDistinct code c.exit_codes v.distinct;
  adds_up = count_code-sum code c.exit_codes ∙ ap suc v.adds_up;
}
report-Inv c retried v = record { distinct = v.distinct; adds_up = v.adds_up }
report-Inv c (ended err) v = record { distinct = v.distinct; adds_up = v.adds_up }

reported-Inv : {F : Type 0} (path : FilePath) (rs : List (Report F)) → Inv (reported path rs)
unfolding reported new_collector
reported-Inv path [] = record { distinct = (tt, tt); adds_up = refl }
reported-Inv path (r ∷ rs) = report-Inv (reported path rs) r (reported-Inv path rs)

IsIn-describe : (name : MetricName) → IsIn name describe
unfolding describe
IsIn-describe handler_info = inl refl
IsIn-describe pending_total = inr (inl refl)
IsIn-describe file_changes_total = inr (inr (inl refl))
IsIn-describe command_exit_code_total = inr (inr (inr (inl refl)))
IsIn-describe command_wall_time = inr (inr (inr (inr (inl refl))))
IsIn-describe command_user_time = inr (inr (inr (inr (inr (inl refl)))))
IsIn-describe command_system_time = inr (inr (inr (inr (inr (inr (inl refl))))))
IsIn-describe retries_total = inr (inr (inr (inr (inr (inr (inr (inl refl)))))))
IsIn-describe finished_total = inr (inr (inr (inr (inr (inr (inr (inr (inl refl))))))))
IsIn-describe failures_total = inr (inr (inr (inr (inr (inr (inr (inr (inr (inl refl)))))))))

code_samples-IsDescribed :
    {F : Type 0} (cs : List (ℤ × ℕ)) (rest : List (Sample F))
    → All IsDescribed rest
    → All IsDescribed (code_samples cs ++ rest)
unfolding code_samples label_count
code_samples-IsDescribed [] rest h = h
code_samples-IsDescribed (p ∷ cs) rest h =
    ((IsIn-describe command_exit_code_total, refl), code_samples-IsDescribed cs rest h)

-- Whatever has been reported, each metric that Collect sends is one that Describe announces, with as many
-- labels. The counts by exit code have different codes, and add up to the number of observed run times.
pub collect-IsDescribed :
    {F : Type 0} (path : FilePath) (rs : List (Report F)) (pending : ℕ)
    → All IsDescribed (collect (reported path rs) pending)
      × AreDistinct (reported path rs).exit_codes
      × (sum_counts (reported path rs).exit_codes ≡ length (reported path rs).wall_times)
unfolding collect label_count
collect-IsDescribed path rs pending =
    let c = reported path rs in
    let v = reported-Inv path rs in
    (
      (
        (IsIn-describe handler_info, refl),
        (
          (IsIn-describe file_changes_total, refl),
          code_samples-IsDescribed c.exit_codes _ (
            (IsIn-describe command_wall_time, refl),
            (
              (IsIn-describe command_user_time, refl),
              (
                (IsIn-describe command_system_time, refl),
                (
                  (IsIn-describe retries_total, refl),
                  (
                    (IsIn-describe finished_total, refl),
                    (
                      (IsIn-describe failures_total, refl),
                      ((IsIn-describe pending_total, refl), tt),
                    ),
                  ),
                ),
              ),
            ),
          ),
        ),
      ),
      v.distinct,
      v.adds_up,
    )
