-- ===== src/Report/Rereading.antt =====
-- What the XML library makes of written events, and that the reader of src/report/junit.rs cannot tell
-- how a text is split.
use Prim.Native.String.{◌++◌ as append}
use package.text.Mathlib.TextLemmas.{
  append-nil as text_append-nil, append_assoc as text_append_assoc, nil-append as text_nil-append,
}
use offload.Base.{
  String, ◌≡◌, refl, sym, ap, ◌∙◌, Option, none, some, List, ◌∷◌, arith, unwrap_or,
  comparable_number, comparable_text,
}
use offload.Report.Reader.{
  Event, text, general_ref, Decoding, Parser, push_general_ref, step, read_events,
}

-- Two sequences of events with the same markup and the same text between: texts may be joined or split,
-- and a reference may stand for what it refers to.
pub data SameText (D : Decoding) : List Event → List Event → Type 0 where
  same : (es : List Event) → SameText D es es
  join :
      (s t : String) (es : List Event)
      → SameText D (text (some s) ∷ text (some t) ∷ es) (text (some (append s t)) ∷ es)
  drop_empty : (es : List Event) → SameText D (text (some "") ∷ es) es
  resolve :
      (ch name : Option String) (es : List Event)
      → SameText D (general_ref ch name ∷ es) (text (some (push_general_ref D "" ch name)) ∷ es)
  behind : (e : Event) {es fs : List Event} → SameText D es fs → SameText D (e ∷ es) (e ∷ fs)
  flip : {es fs : List Event} → SameText D es fs → SameText D fs es
  chain : {es fs gs : List Event} → SameText D es fs → SameText D fs gs → SameText D es gs

module _ (D : Decoding) where
  step-join :
      (p : Parser D) (s t : String)
      → step D (step D p (text (some s))) (text (some t)) ≡ step D p (text (some (append s t)))
  unfolding step
  step-join p s t = ground (arith, text_append_assoc p.current_failure_content s t)

  step-empty : (p : Parser D) → step D p (text (some "")) ≡ p
  unfolding step
  step-empty p = ground (arith, text_append-nil p.current_failure_content)

  append-push_general_ref :
      (content : String) (ch name : Option String)
      → push_general_ref D content ch name ≡ append content (push_general_ref D "" ch name)
  unfolding push_general_ref
  append-push_general_ref content (some c) name = ap (append content) (sym (text_nil-append c))
  append-push_general_ref content none none = sym (text_append-nil content)
  append-push_general_ref content none (some n) =
      ap (append content) (sym (text_nil-append (unwrap_or (D.predefined_entity n) "")))

  step-resolve :
      (p : Parser D) (ch name : Option String)
      → step D p (general_ref ch name) ≡ step D p (text (some (push_general_ref D "" ch name)))
  unfolding step
  step-resolve p ch name = ground (arith, append-push_general_ref p.current_failure_content ch name)

  -- The reader's state depends on the text alone, and not on how the XML reader cuts it up.
  pub read_events-SameText :
      {es fs : List Event} (p : Parser D)
      → SameText D es fs
      → read_events D p es ≡ read_events D p fs
  unfolding read_events
  read_events-SameText p (same es) = refl
  read_events-SameText p (join s t es) = ap (λ q. read_events D q es) (step-join p s t)
  read_events-SameText p (drop_empty es) = ap (λ q. read_events D q es) (step-empty p)
  read_events-SameText p (resolve ch name es) =
      ap (λ q. read_events D q es) (step-resolve p ch name)
  read_events-SameText p (behind e h) = read_events-SameText (step D p e) h
  read_events-SameText p (flip h) = sym (read_events-SameText p h)
  read_events-SameText p (chain h k) = read_events-SameText p h ∙ read_events-SameText p k
