-- ===== src/Email/Escape.antt =====
-- src/core/queues/processors/email.processor.ts: the five replacements of escapeHtml.
use Prim.Native.String
use Prim.Native.Char.{Char, code}
use text.Mathlib.TextLemmas.{cons-append, nil-append, append_assoc}
use nest_nexus.Prelude.{
  ℕ, String, ◌≡◌, refl, sym, ap, ◌∙◌, inl, inr, ◌==◌, nat_eq, if◌then◌else◌, Bool-cases,
}
use nest_nexus.Email.{replace_all, escape_html}

replace_all-append :
    (target : ℕ) (text a b : String)
    → replace_all target text (String.◌++◌ a b)
      ≡ String.◌++◌ (replace_all target text a) (replace_all target text b)
replace_all-append target text String.[] b =
    rw (nil-append b, nil-append (replace_all target text b)) refl
replace_all-append target text (String.◌∷◌ c a) b = elim (Bool-cases (code c == target)) [
  | inl hit ↦
      rw (cons-append c a b, hit, replace_all-append target text a b)
        (sym (append_assoc text (replace_all target text a) (replace_all target text b)))
  | inr miss ↦
      rw (cons-append c a b, miss, replace_all-append target text a b)
        (sym (cons-append c (replace_all target text a) (replace_all target text b)))
]

-- A character by itself in HTML.
abbrev pub escaped : Char → String
escaped c =
    if code c == b'&'
    then "&amp;"
    else if code c == b'<'
    then "&lt;"
    else if code c == b'>'
    then "&gt;"
    else if code c == b'"'
    then "&quot;"
    else if code c == b'\''
    then "&#39;"
    else String.◌∷◌ c String.[]

abbrev pub escape_each : String → String
escape_each String.[] = String.[]
escape_each (String.◌∷◌ c s) = String.◌++◌ (escaped c) (escape_each s)

step :
    (c : Char) (s : String) → escape_html (String.◌∷◌ c s) ≡ String.◌++◌ (escaped c) (escape_html s)
unfolding escape_html
step c s =
    let amps = replace_all b'&' "&amp;" s in
    let lts = replace_all b'<' "&lt;" amps in
    let gts = replace_all b'>' "&gt;" lts in
    let quotes = replace_all b'"' "&quot;" gts in
    elim (Bool-cases (code c == b'&')) [
      | inl amp ↦
          rw
            (
              amp,
              replace_all-append b'<' "&lt;" "&amp;" amps,
              replace_all-append b'>' "&gt;" "&amp;" lts,
              replace_all-append b'"' "&quot;" "&amp;" gts,
              replace_all-append b'\'' "&#39;" "&amp;" quotes,
            )
            refl
      | inr no_amp ↦ elim (Bool-cases (code c == b'<')) [
        | inl less ↦
            rw
              (
                no_amp,
                less,
                replace_all-append b'>' "&gt;" "&lt;" lts,
                replace_all-append b'"' "&quot;" "&lt;" gts,
                replace_all-append b'\'' "&#39;" "&lt;" quotes,
              )
              refl
        | inr no_less ↦ elim (Bool-cases (code c == b'>')) [
          | inl greater ↦
              rw
                (
                  no_amp,
                  no_less,
                  greater,
                  replace_all-append b'"' "&quot;" "&gt;" gts,
                  replace_all-append b'\'' "&#39;" "&gt;" quotes,
                )
                refl
          | inr no_greater ↦ elim (Bool-cases (code c == b'"')) [
            | inl quote ↦
                rw
                  (
                    no_amp,
                    no_less,
                    no_greater,
                    quote,
                    replace_all-append b'\'' "&#39;" "&quot;" quotes,
                  )
                  refl
            | inr no_quote ↦ elim (Bool-cases (code c == b'\'')) [
              | inl apostrophe ↦ rw (no_amp, no_less, no_greater, no_quote, apostrophe) refl
              | inr other ↦
                  rw
                    (
                      no_amp,
                      no_less,
                      no_greater,
                      no_quote,
                      other,
                      cons-append c String.[] _,
                      nil-append _,
                    )
                    refl
            ]
          ]
        ]
      ]
    ]

-- The five replacements, one after the other, escape each character once: what one of them puts in is
-- not escaped again by the next.
pub escape_html-eq-each : (value : String) → escape_html value ≡ escape_each value
unfolding escape_html
escape_html-eq-each String.[] = refl
escape_html-eq-each (String.◌∷◌ c s) =
    step c s ∙ ap (λ t. String.◌++◌ (escaped c) t) (escape_html-eq-each s)
