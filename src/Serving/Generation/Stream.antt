-- ===== src/Serving/Generation/Stream.antt =====
-- src/serving/vllm_engine.py: `stream_generate` yields what each output of the stream adds to the text.
use Prim.Native.String.{[] as empty, ◌∷◌ as push, ◌++◌ as append}
use text.Mathlib.TextLemmas.{nil-append, cons-append, append-nil, append_assoc}
use multie_layer_kache.Prelude.{
  ℕ, zero, suc, ◌≡◌, ◌∙◌, refl, sym, ap, String, List, [], ◌∷◌, ◌==◌, string_key, equal-true,
  if◌then◌else◌, inl, inr, Bool-cases,
}
use multie_layer_kache.Serving.Outputs.{RequestOutput}

-- `len(text)`
unfoldable pub char_length : String → ℕ
char_length empty = 0
char_length (push c s) = suc (char_length s)

-- `text[n:]`
unfoldable pub drop_chars : ℕ → String → String
drop_chars zero s = s
drop_chars (suc n) empty = empty
drop_chars (suc n) (push c s) = drop_chars n s

-- the text of the first candidate of each output that has one
unfoldable pub texts_of : List RequestOutput → List String
texts_of [] = []
texts_of (out ∷ outputs) =
    let rest = texts_of outputs in
    elim out.outputs [ [] ↦ rest | ◌∷◌ best others ↦ best.text ∷ rest ]

-- the strings that the loop yields, from `prev_len` on
unfoldable pub deltas : ℕ → List String → List String
unfolding char_length drop_chars
deltas prev_len [] = []
deltas prev_len (t ∷ texts) =
    let delta = drop_chars prev_len t in
    let rest = deltas (char_length t) texts in if delta == "" then rest else delta ∷ rest

unfoldable pub stream_generate : List RequestOutput → List String
unfolding texts_of deltas
stream_generate outputs = deltas 0 (texts_of outputs)

abbrev pub concat : List String → String
concat [] = ""
concat (s ∷ rest) = append s (concat rest)

abbrev pub last_text : String → List String → String
last_text t [] = t
last_text t (u ∷ texts) = last_text u texts

-- each text begins with the one before it
abbrev pub IsGrowing : String → List String → Type 0
IsGrowing t [] = Unit
IsGrowing t (u ∷ texts) = ((s : String) × (u ≡ append t s)) × IsGrowing u texts

drop_chars-append : (s t : String) → drop_chars (char_length s) (append s t) ≡ t
unfolding drop_chars char_length
drop_chars-append empty t = nil-append t
drop_chars-append (push c s) t = rw (cons-append c s t) (drop_chars-append s t)

-- Leaving out an empty string changes nothing.
concat-skipped :
    (s : String) (rest : List String)
    → concat (if s == "" then rest else s ∷ rest) ≡ append s (concat rest)
concat-skipped s rest = elim (Bool-cases (s == "")) [
  | inl e ↦
      rw e (sym (ap (λ v. append v (concat rest)) (equal-true s "" e) ∙ nil-append (concat rest)))
  | inr e ↦ rw e refl
]

-- What has been yielded, behind a text, is the last text.
concat-deltas :
    (t : String) (texts : List String)
    → IsGrowing t texts
    → append t (concat (deltas (char_length t) texts)) ≡ last_text t texts
unfolding deltas
concat-deltas t [] g = append-nil t
concat-deltas t (u ∷ texts) ((s, e), g) =
    let delta : drop_chars (char_length t) u ≡ s =
      ap (drop_chars (char_length t)) e ∙ drop_chars-append t s in
    let rest = concat-deltas u texts g in
    let later = deltas (char_length u) texts in
    ap (λ v. append t (concat (if v == "" then later else v ∷ later))) delta
    ∙ ap (append t) (concat-skipped s later)
    ∙ sym (append_assoc t s (concat later))
    ∙ ap (λ v. append v (concat later)) (sym e)
    ∙ rest

-- Where every text of the stream begins with the one before it, the strings that `stream_generate` yields,
-- one after the other, are the last text.
pub stream_generate_lem :
    (outputs : List RequestOutput)
    → IsGrowing "" (texts_of outputs)
    → concat (stream_generate outputs) ≡ last_text "" (texts_of outputs)
unfolding stream_generate char_length
stream_generate_lem outputs g =
    sym (nil-append (concat (deltas 0 (texts_of outputs)))) ∙ concat-deltas "" (texts_of outputs) g
