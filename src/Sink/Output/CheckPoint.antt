-- ===== src/Sink/Output/CheckPoint.antt =====
-- The members of a `ThreadCheckPoint` in a buffer are read back.
use constexpr_fmt_str.Prelude.{
  ℕ, zero, suc, ◌+◌, ◌-◌, ◌^◌, ◌≤◌, ◌<◌, ◌≡◌, refl, ap, ◌∙◌, List, [], ◌∷◌, ◌++◌, arith, length,
  replicate, length-replicate, length-append, append_assoc,
}
use constexpr_fmt_str.Prelude.Int.{pos, ◌-ℤ◌}
use constexpr_fmt_str.Convert.Args.{int_of}
use constexpr_fmt_str.Spec.Pieces.{NoNul}
use constexpr_fmt_str.Entry.{number_of, bytes_of}
use constexpr_fmt_str.Entry.Bytes.{length-bytes_of, number_of-bytes_of, until_nul-slice}
use constexpr_fmt_str.Staging.Slice.{slice}
use constexpr_fmt_str.Sink.{check_point}
use constexpr_fmt_str.Sink.Copied.{record_of}
use constexpr_fmt_str.Sink.Output.{name_at, block_size_at}
use constexpr_fmt_str.Sink.Output.Lines.{slice-part}

pub int_of-small : (n : ℕ) → n < 2 ^ 31 → int_of n ≡ pos n
unfolding int_of
int_of-small n h = ground arith

pub minus-small : (a b c : ℕ) → a ≡ b + c → pos a -ℤ pos b ≡ pos c
minus-small a b c h = ground arith

replicate-suc : (n : ℕ) → 0 < n → replicate {A = ℕ} n 0 ≡ 0 ∷ replicate (n - 1) 0
replicate-suc zero h = absurd (omega arith)
replicate-suc (suc n) h = ap (λ k. 0 ∷ replicate {A = ℕ} k 0) (omega arith)

-- the check point of a block, read at the place of the block
module _ (before name logline after bytes : List ℕ) (at : ℕ)
    (split : bytes ≡ before ++ (record_of name logline ++ after)) (here : at ≡ length before)
    (plain : NoNul name) (short : length name ≤ 15) where
  pub check_point-name : name_at bytes at ≡ name
  unfolding check_point
  check_point-name =
      let zeros = replicate (20 - length name - 1) 0 in
      let apart : record_of name logline ++ after
          ≡ (name ++ (0 ∷ [])) ++ (zeros ++ (bytes_of 4 (length logline) ++ (logline ++ after))) =
        rw (replicate-suc (20 - length name) (omega arith)) (simp append_assoc) in
      until_nul-slice bytes at (at + length (name ++ (0 ∷ []))) name plain (
        ap (λ z. slice z at (at + length (name ++ (0 ∷ [])))) (split ∙ ap (λ z. before ++ z) apart)
        ∙ slice-part before (name ++ (0 ∷ [])) _ at (at + length (name ++ (0 ∷ []))) here refl)

  pub check_point-size : length logline < 2 ^ 31 → block_size_at bytes at ≡ pos (length logline)
  unfolding check_point
  check_point-size small =
      let fore = name ++ replicate (20 - length name) 0 in
      let n = length logline in
      let apart : bytes ≡ (before ++ fore) ++ (bytes_of 4 n ++ (logline ++ after)) =
        split ∙ simp append_assoc in
      let l1 = length-append name (replicate (20 - length name) 0) in
      let l2 = length-append before fore in
      let l3 = length-replicate {A = ℕ} (20 - length name) 0 in
      let l4 = length-bytes_of 4 n in
      let part : slice bytes (at + 20) (at + 24) ≡ bytes_of 4 n =
        ap (λ z. slice z (at + 20) (at + 24)) apart
        ∙ slice-part (before ++ fore) (bytes_of 4 n) (logline ++ after) (at + 20) (at + 24)
            (omega arith) (omega arith) in
      ap (λ z. int_of (number_of z)) part
      ∙ ap int_of (number_of-bytes_of 4 n (omega arith))
      ∙ int_of-small n small
