-- ===== src/Sink/Output/Texts.antt =====
-- The texts of the formats that `threadFunc` itself uses.
use constexpr_fmt_str.Prelude.{ℕ, ◌≡◌, refl, some, List, [], ◌∷◌, ◌++◌, codes}
use constexpr_fmt_str.Spec.{
  SpecInfo, no_flags, is_terminal, is_inside, is_flag, is_length, is_digit, to_digit, read_fields,
  switch_char, double_letter, read_number, read_precision, find_percent, skip_plain, skip_inside,
}
use constexpr_fmt_str.Spec.Scan.{
  count_valid_spec_infos, count_loop, squeeze_sound_size, squeeze_loop, skip_specs, find_end,
  make_spec, get_one_spec, specs_from, analyze_format_string, store_one_char, store_chars,
  preprocess_invalid_specs, runtime_string, args_of, count_args_required,
}
use constexpr_fmt_str.Convert.Format.{resolve, convert, Store}
use constexpr_fmt_str.Convert.Text.{convert_string}
use constexpr_fmt_str.Convert.Integer.{convert_integer}
use constexpr_fmt_str.Convert.Args.{
  Library, Arg, c_string, integral, size_of_int, int_of, sarg, sign_extend,
}
use constexpr_fmt_str.Convert.Layout.{layout}
use constexpr_fmt_str.Convert.Emit.{
  is_integer, is_real, has_sign, real_size, pads_in_int, precision_zeros, cut_at,
}
use constexpr_fmt_str.Convert.Float.{is_f, is_e, is_a, is_g}
use constexpr_fmt_str.Prelude.Int.{pos, negsuc}
use constexpr_fmt_str.Prelude.{false, length, take-all, append-nil, arith}
use constexpr_fmt_str.Convert.Integer.{scratch, signed_value, integer_text}
use constexpr_fmt_str.Digits.Value.{value, AllDigits, NoLeadingZero}
use constexpr_fmt_str.Digits.Formats.{dec_value, is_numeral, format_dec-Spells}
use constexpr_fmt_str.Sink.Output.{StaticFmtInfo, prefix_format, prefix_args}
use constexpr_fmt_str.Prelude.{
  Option, ◌+◌, true, ltb, if◌then◌else◌, ◌-◌, ◌<◌, ◌≤◌, ◌^◌, ◌%◌, drop, le→leb, append_assoc, ◌∙◌,
  length-replicate, length-drop,
}
use constexpr_fmt_str.Convert.Render.{render_onto, render_impl, render_between, take_args}

module _ (lib : Library) where
  pub render_onto-newline :
      (t : List ℕ) → render_onto lib (codes "\n") [] t ≡ some (t ++ codes "\n", [])
  unfolding count_valid_spec_infos skip_plain squeeze_sound_size analyze_format_string get_one_spec
      count_args_required is_terminal runtime_string
  render_onto-newline t = refl

-- a text is laid out as it is where it has no width, precision and flags
layout-text :
    (x : List ℕ)
    → length x < 2 ^ 31
    → layout b's'
        (pos 0)
        (record { text = x; sign = 0; prec = negsuc 0; flags = no_flags; fpprec = 0; gtoe = false })
        (length x)
      ≡ x
unfolding is_integer is_real has_sign is_f is_a is_e is_g real_size int_of
layout-text x h = ground (arith, take-all (length x) x, append-nil x)

text-in_int :
    (x : List ℕ)
    → length x < 2 ^ 31
    → pads_in_int b's'
        (pos 0)
        (record { text = x; sign = 0; prec = negsuc 0; flags = no_flags; fpprec = 0; gtoe = false })
      ≡ true
unfolding pads_in_int real_size int_of is_integer has_sign is_real is_f is_e is_a is_g
text-in_int x h = ground arith

numeral-in_int :
    (x : List ℕ)
    → length x ≤ 32
    → pads_in_int b'd'
        (pos 0)
        (record { text = x; sign = 0; prec = negsuc 0; flags = no_flags; fpprec = 0; gtoe = false })
      ≡ true
unfolding pads_in_int real_size int_of is_integer has_sign is_real is_f is_e is_a is_g
numeral-in_int x h = ground arith

layout-numeral :
    (x : List ℕ)
    → length x ≤ 32
    → layout b'd'
        (pos 0)
        (record { text = x; sign = 0; prec = negsuc 0; flags = no_flags; fpprec = 0; gtoe = false })
        (length x)
      ≡ x
unfolding is_integer is_real has_sign is_f is_a is_e is_g real_size precision_zeros size_of_int
    int_of
layout-numeral x h = ground (arith, take-all (length x) x, append-nil x)

-- the decimal numeral of a number
abbrev pub IsNumeral : ℕ → List ℕ → Type 0
IsNumeral v text =
    (value 10 dec_value 0 text ≡ v) × AllDigits (is_numeral b'9') text × NoLeadingZero text

int-IsNumeral :
    (v : ℕ)
    → v < 2 ^ 31
    → (text : List ℕ) × (integer_text no_flags b'd' 0 v ≡ some (text, 0))
      × (length text ≤ 32)
      × IsNumeral v text
unfolding integer_text signed_value sarg sign_extend
int-IsNumeral v h =
    let (w, run, spells) =
      format_dec-Spells scratch v (omega (arith, length-replicate {A = ℕ} 32 0)) (omega arith) in
    let low : v % 2 ^ 32 ≡ v = omega arith in
    let size = length-drop w.1 w.0 in
    (
      drop w.1 w.0,
      ground (arith, run),
      omega (arith, spells.size, length-replicate {A = ℕ} 32 0),
      (spells.spelled, spells.digits, spells.no_zero),
    )

module _ (lib : Library) where
  -- the prefix of a line up to its numeral
  abbrev pub prefix_text : List ℕ → List ℕ → List ℕ → List ℕ → List ℕ → List ℕ → List ℕ
  prefix_text time level name filename funcname numeral =
      time
      ++ (codes " "
          ++ (level
              ++ (codes " "
                  ++ (name
                      ++ (codes " "
                          ++ (filename
                              ++ (codes "->"
                                  ++ (funcname ++ (codes ":" ++ (numeral ++ codes "] "))))))))))

  -- a specifier without flags, width and precision, and the text before it
  abbrev spec : ℕ → ℕ → ℕ → SpecInfo
  spec begin end terminal = record {
    begin = begin;
    end = end;
    flags = no_flags;
    width = pos 0;
    prec = negsuc 0;
    sign = 0;
    terminal = terminal;
    width_first = true;
  }

  abbrev lead : List ℕ → SpecInfo → List ℕ → Option (List ℕ)
  lead rts s t = if ltb 0 (s.end - s.begin) then render_between rts s t else some t

  abbrev Taken : SpecInfo → Arg lib.Real → List (Arg lib.Real) → Type 0
  Taken s a args = take_args lib s (a ∷ args) ≡ some (pos 0, negsuc 0, a, args)

  render_impl-text :
      (rts : List ℕ) (begin end : ℕ) (s' : SpecInfo) (ss : List SpecInfo) (x : List ℕ)
      (args : List (Arg lib.Real)) (t t1 t2 : List ℕ) (stores : List Store)
      → lead rts (spec begin end b's') t ≡ some t1
      → Taken (spec begin end b's') (c_string 0 x) args
      → length x < 2 ^ 31
      → render_impl lib rts (s' ∷ ss) args (t1 ++ x) ≡ some (t2, stores)
      → render_impl lib rts (spec begin end b's' ∷ s' ∷ ss) (c_string 0 x ∷ args) t
        ≡ some (t2, stores)
  unfolding resolve convert convert_string cut_at is_e is_a is_g
  render_impl-text rts begin end s' ss x args t t1 t2 stores fore have h rest =
      rw (have, fore, text-in_int x h, layout-text x h, rest) refl

  render_impl-numeral :
      (rts : List ℕ) (begin end : ℕ) (s' : SpecInfo) (ss : List SpecInfo) (v : ℕ) (x : List ℕ)
      (args : List (Arg lib.Real)) (t t1 t2 : List ℕ) (stores : List Store)
      → lead rts (spec begin end b'd') t ≡ some t1
      → Taken (spec begin end b'd') (integral v) args
      → integer_text no_flags b'd' 0 v ≡ some (x, 0)
      → length x ≤ 32
      → render_impl lib rts (s' ∷ ss) args (t1 ++ x) ≡ some (t2, stores)
      → render_impl lib rts (spec begin end b'd' ∷ s' ∷ ss) (integral v ∷ args) t
        ≡ some (t2, stores)
  unfolding resolve convert convert_integer is_integer cut_at is_e is_a is_g
  render_impl-numeral rts begin end s' ss v x args t t1 t2 stores fore have e h rest =
      rw (have, fore, e, numeral-in_int x h, layout-numeral x h, rest) refl

  abbrev prefix_specs : List SpecInfo
  prefix_specs =
      spec 0 0 b's'
      ∷ spec 2 3 b's'
      ∷ spec 5 6 b's'
      ∷ spec 8 9 b's'
      ∷ spec 11 13 b's'
      ∷ spec 15 16 b'd'
      ∷ spec 18 20 0
      ∷ []

  -- the texts that are converted have fewer than 2^31 characters
  abbrev pub Printable : List ℕ → List ℕ → List ℕ → StaticFmtInfo → Type 0
  Printable time level name smi =
      (length time < 2 ^ 31)
      × (length level < 2 ^ 31)
      × (length name < 2 ^ 31)
      × (length smi.filename < 2 ^ 31)
      × (length smi.funcname < 2 ^ 31)

  render_impl-prefix :
      (time level name numeral : List ℕ) (smi : StaticFmtInfo)
      → Printable time level name smi
      → integer_text no_flags b'd' 0 smi.line_num ≡ some (numeral, 0)
      → length numeral ≤ 32
      → render_impl lib prefix_format prefix_specs (prefix_args lib time level name smi) []
        ≡ some (
          []
              ++ time
              ++ codes " "
              ++ level
              ++ codes " "
              ++ name
              ++ codes " "
              ++ smi.filename
              ++ codes "->"
              ++ smi.funcname
              ++ codes ":"
              ++ numeral
              ++ codes "] ",
          [],
        )
  render_impl-prefix time level name numeral smi (k1, k2, k3, k4, k5) e h =
      let ss6 = spec 18 20 0 ∷ [] in
      let ss5 = spec 15 16 b'd' ∷ ss6 in
      let ss4 = spec 11 13 b's' ∷ ss5 in
      let ss3 = spec 8 9 b's' ∷ ss4 in
      let ss2 = spec 5 6 b's' ∷ ss3 in
      let a6 : List (Arg lib.Real) = [] in
      let a5 = integral smi.line_num ∷ a6 in
      let a4 = c_string 0 smi.funcname ∷ a5 in
      let a3 = c_string 0 smi.filename ∷ a4 in
      let a2 = c_string 0 name ∷ a3 in
      let a1 = c_string 0 level ∷ a2 in
      let t1 = [] ++ time in
      let t2 = t1 ++ codes " " ++ level in
      let t3 = t2 ++ codes " " ++ name in
      let t4 = t3 ++ codes " " ++ smi.filename in
      let t5 = t4 ++ codes "->" ++ smi.funcname in
      let t6 = t5 ++ codes ":" ++ numeral in
      let t7 = t6 ++ codes "] " in
      let rts = prefix_format in
      render_impl-text rts 0 0 (spec 2 3 b's') ss2 time a1 [] [] t7 [] refl refl k1 (
        render_impl-text rts 2 3 (spec 5 6 b's') ss3 level a2 t1 (t1 ++ codes " ") t7 [] refl refl
          k2
          (render_impl-text rts 5 6 (spec 8 9 b's') ss4 name a3 t2 (t2 ++ codes " ") t7 [] refl refl
            k3
            (render_impl-text rts 8 9 (spec 11 13 b's') ss5 smi.filename a4 t3 (t3 ++ codes " ") t7
              [] refl refl k4
              (render_impl-text rts 11 13 (spec 15 16 b'd') ss6 smi.funcname a5 t4
                (t4 ++ codes "->") t7 [] refl refl k5
                (render_impl-numeral rts 15 16 (spec 18 20 0) [] smi.line_num numeral a6 t5
                  (t5 ++ codes ":") t7 [] refl refl e h refl)))))

  prefix_counted : count_valid_spec_infos prefix_format ≡ some 6
  unfolding count_valid_spec_infos skip_plain skip_inside is_inside is_terminal count_loop
  prefix_counted = refl

  prefix_squeezed : squeeze_sound_size prefix_format ≡ some 21
  unfolding skip_plain skip_inside is_inside squeeze_sound_size squeeze_loop is_terminal
  prefix_squeezed = refl

  prefix_analysed : analyze_format_string 7 prefix_format ≡ some prefix_specs
  unfolding skip_plain skip_inside is_inside analyze_format_string is_terminal get_one_spec
      read_fields switch_char read_number find_percent to_digit find_end make_spec skip_specs
      specs_from double_letter is_digit is_flag is_length read_precision
  prefix_analysed = refl

  prefix_kept : runtime_string 21 prefix_format ≡ prefix_format
  unfolding runtime_string preprocess_invalid_specs store_chars store_one_char
  prefix_kept = refl

  prefix_required : count_args_required prefix_specs ≡ 6
  unfolding count_args_required args_of is_terminal
  prefix_required = refl

  render_onto-analysed :
      (fmt : List ℕ) (n size : ℕ) (specs : List SpecInfo) (rts : List ℕ)
      (args : List (Arg lib.Real)) (t : List ℕ)
      → count_valid_spec_infos fmt ≡ some n
      → squeeze_sound_size fmt ≡ some size
      → analyze_format_string (n + 1) fmt ≡ some specs
      → runtime_string size fmt ≡ rts
      → count_args_required specs ≤ length args
      → render_onto lib fmt args t ≡ render_impl lib rts specs args t
  render_onto-analysed fmt n size specs rts args t a b c d h =
      rw (a, b, c, d, le→leb (count_args_required specs) (length args) h) refl

  -- The prefix of a line, for a line number below 2^31 and texts of fewer than 2^31 characters: the text of the timestamp, the name of the level, the name of
  -- the thread, the file and the function, with their separators, and the decimal numeral of the line.
  pub prefix-text :
      (time level name : List ℕ) (smi : StaticFmtInfo)
      → Printable time level name smi
      → smi.line_num < 2 ^ 31
      → (numeral : List ℕ) × IsNumeral smi.line_num numeral
        × (render_onto lib prefix_format (prefix_args lib time level name smi) []
            ≡ some (prefix_text time level name smi.filename smi.funcname numeral, []))
  prefix-text time level name smi printable h =
      let (numeral, run, short, is) = int-IsNumeral smi.line_num h in
      (
        numeral,
        is,
        render_onto-analysed prefix_format 6 21 prefix_specs prefix_format
              (prefix_args lib time level name smi) [] prefix_counted prefix_squeezed
              prefix_analysed prefix_kept (omega (arith, prefix_required))
            ∙ render_impl-prefix time level name numeral smi printable run short
            ∙ simp append_assoc,
      )
