-- ===== src/Scoring/Judge/Validity.antt =====
-- What the judge's result promises of the model's output.
use smart_screen_agent.Prelude.{
  ℕ, ◌≡◌, ◌≢◌, refl, ap, subst, String, Bool, true, not, ◌&&◌, ◌||◌, ◌⊎◌, inl, inr, Bool-cases,
  Option, none, some, List, [], ◌∷◌, find_first, All, ◌==◌, ==_iff, Result, ok, raised, bind_ok,
  ok_inj, same_text, sym, ◌∙◌, Option-cases, Result-cases, All-find_first, All-Unit,
}
use smart_screen_agent.Llm.Usage.{LlmCallContext}
use smart_screen_agent.Llm.Gateway.{LlmResponse, Settings, World, Answered}
use smart_screen_agent.Scoring.Judge.{
  Tier, JudgeDimension, JudgeDimensionResult, JudgeResult, Reader, InvalidOutput, JudgeError,
  has_id, has_label, is_quoted, all_quoted, check_evidence, check_tier, with_tier, with_item,
  repeats, all_asked, all_answered, check_dimensions, validate_items, validate, as_judged, conclude,
  Encounters, try_again, after_validation, after_call, score,
}

-- The quote is not blank and stands in the source.
abbrev pub Quoted : Reader → String → String → Type 0
Quoted r source q = (r.normalize q ≢ "") × (r.within (r.normalize q) source ≡ true)

-- The item has no score and no evidence, or the tier's score and evidence that stands in the source.
unfoldable pub IsFounded : Reader → String → JudgeDimensionResult → Option ℕ → Type 0
IsFounded r source item s =
    (item.score ≡ s)
    × ((item.score ≡ none) × (item.evidence_quotes ≡ [])
        ⊎ (item.evidence_quotes ≢ []) × All (Quoted r source) item.evidence_quotes)

-- The item answers the dimension, with one of its tiers.
unfoldable pub Answers : Reader → String → JudgeDimension → JudgeDimensionResult → Type 0
unfolding IsFounded
Answers r source dim item =
    (has_id dim.id item ≡ true)
    × ((tier : Tier) × (find_first (has_label item.tier) dim.tiers ≡ some tier)
        × IsFounded r source item tier.score)

-- The items answer the dimensions one by one, in their order.
pub data AnswerAll (r : Reader) (source : String)
    : List JudgeDimension → List JudgeDimensionResult → Type 0 where
  answered : AnswerAll r source [] []
  answer :
      {dim : JudgeDimension} {item : JudgeDimensionResult} {dims : List JudgeDimension}
      {items : List JudgeDimensionResult}
      → Answers r source dim item
      → AnswerAll r source dims items
      → AnswerAll r source (dim ∷ dims) (item ∷ items)

is_quoted-Quoted :
    (r : Reader) (source q : String) → is_quoted r source q ≡ true → Quoted r source q
is_quoted-Quoted r source q h = elim (Bool-cases (same_text (r.normalize q) "")) [
  | inl e ↦ absurd (cc (rw e at h))
  | inr e ↦ ((λ blank. absurd (cc (sym e ∙ ap (λ t. same_text t "") blank ∙ refl))), rw e at h)
]

quotes-Quoted :
    (r : Reader) (source : String) (quotes : List String)
    → all_quoted r source quotes ≡ true
    → All (Quoted r source) quotes
unfolding all_quoted
quotes-Quoted r source [] h = tt
quotes-Quoted r source (q ∷ qs) h = elim (Bool-cases (is_quoted r source q)) [
  | inl e ↦ (is_quoted-Quoted r source q e, quotes-Quoted r source qs (rw e at h))
  | inr e ↦ absurd (cc (rw e at h))
]

check_evidence_sound :
    (r : Reader) (source : String) (item out : JudgeDimensionResult) (quotes : List String)
    → check_evidence r source item quotes ≡ ok out
    → (item ≡ out) × (quotes ≢ []) × All (Quoted r source) quotes
check_evidence_sound r source item out [] h = absurd (cc h)
check_evidence_sound r source item out (q ∷ qs) h =
    elim (Bool-cases (all_quoted r source (q ∷ qs))) [
      | inl e ↦ (ok_inj (rw e at h), (λ k. cc k), quotes-Quoted r source (q ∷ qs) e)
      | inr e ↦ absurd (cc (rw e at h))
    ]

check_tier_sound :
    (r : Reader) (source : String) (item out : JudgeDimensionResult) (s t : Option ℕ)
    (quotes : List String)
    → check_tier r source item s t quotes ≡ ok out
    → (item ≡ out)
      × (t ≡ s)
      × ((t ≡ none) × (quotes ≡ []) ⊎ (quotes ≢ []) × All (Quoted r source) quotes)
check_tier_sound r source item out none none [] h = (ok_inj h, refl, inl (refl, refl))
check_tier_sound r source item out none none (q ∷ qs) h = absurd (cc h)
check_tier_sound r source item out none (some t) qs h = absurd (cc h)
check_tier_sound r source item out (some s) none qs h = absurd (cc h)
check_tier_sound r source item out (some s) (some t) qs h = elim (Bool-cases (t == s)) [
  | inl e ↦
      let (same, some_quote, quoted) = check_evidence_sound r source item out qs (rw e at h) in
      (same, ap some ((==_iff t s).0 e), inr (some_quote, quoted))
  | inr e ↦ absurd (cc (rw e at h))
]

with_tier_sound :
    (r : Reader) (source : String) (item out : JudgeDimensionResult) (o : Option Tier)
    → with_tier r source item o ≡ ok out
    → (item ≡ out) × ((tier : Tier) × (o ≡ some tier) × IsFounded r source item tier.score)
unfolding IsFounded
with_tier_sound r source item out none h = absurd (cc h)
with_tier_sound r source item out (some tier) h =
    let (same, scored, founded) =
      check_tier_sound r source item out tier.score item.score item.evidence_quotes h in
    (same, (tier, refl, (scored, founded)))

found_passes :
    {A : Type 0} (p : A → Bool) (xs : List A) (a : A) → find_first p xs ≡ some a → p a ≡ true
found_passes p xs a h = (All-find_first (λ _. Unit {0}) p xs a (All-Unit xs) h).1

with_item_sound :
    (r : Reader) (source : String) (dim : JudgeDimension) (out : JudgeDimensionResult)
    (items : List JudgeDimensionResult)
    → with_item r source dim (find_first (has_id dim.id) items) ≡ ok out
    → Answers r source dim out
unfolding Answers
with_item_sound r source dim out items h = elim (Option-cases (find_first (has_id dim.id) items)) [
  | inl e ↦ absurd (cc (rw e at h))
  | inr (item, e) ↦
      let (same, founded) = with_tier_sound r source item out _ (rw e at h) in
      subst (Answers r source dim) same (found_passes (has_id dim.id) items item e, founded)
]

check_dimensions_sound :
    (r : Reader) (source : String) (items : List JudgeDimensionResult) (dims : List JudgeDimension)
    (ordered : List JudgeDimensionResult)
    → check_dimensions r source items dims ≡ ok ordered
    → AnswerAll r source dims ordered
unfolding check_dimensions
check_dimensions_sound r source items [] ordered h =
    subst (AnswerAll r source []) (ok_inj h) answered
check_dimensions_sound r source items (dim ∷ dims) ordered h =
    let (item, hi, h1) =
      bind_ok (with_item r source dim (find_first (has_id dim.id) items)) _ ordered h in
    let (rest, hr, h2) = bind_ok (check_dimensions r source items dims) _ ordered h1 in
    subst (AnswerAll r source (dim ∷ dims)) (ok_inj h2) (
      answer (with_item_sound r source dim item items hi)
        (check_dimensions_sound r source items dims rest hr))

-- What `score` promises of a result; an error promises nothing.
abbrev pub Sound : Reader → String → List JudgeDimension → Result JudgeError JudgeResult → Type 0
Sound r resume dims (raised e) = Unit {0}
Sound r resume dims (ok result) = AnswerAll r (r.normalize resume) dims result.dimensions

validate_items_sound :
    (r : Reader) (resume : String) (dims : List JudgeDimension) (response : LlmResponse)
    (read : Option (List JudgeDimensionResult)) (result : JudgeResult)
    → validate_items r resume dims response read ≡ ok result
    → AnswerAll r (r.normalize resume) dims result.dimensions
validate_items_sound r resume dims response none result h = absurd (cc h)
validate_items_sound r resume dims response (some items) result h = elim (Bool-cases refused) [
  | inl e ↦ absurd (cc (rw e at h))
  | inr e ↦
      (let (ordered, checked, made) =
          bind_ok (check_dimensions r (r.normalize resume) items dims) _ result (rw e at h) in
        subst (λ x. AnswerAll r (r.normalize resume) dims x.dimensions) (ok_inj made)
          (check_dimensions_sound r (r.normalize resume) items dims ordered checked))
]
  where
    refused : Bool
    refused = repeats items || not (all_asked dims items && all_answered dims items)

validate-Sound :
    (r : Reader) (resume : String) (dims : List JudgeDimension) (response : LlmResponse)
    → Sound r resume dims (as_judged (validate r resume dims response))
unfolding validate
validate-Sound r resume dims response =
    elim (Result-cases (validate_items r resume dims response (r.read response.content))) [
      | inl (result, e) ↦ rw e (validate_items_sound r resume dims response _ result e)
      | inr (error, e) ↦ rw e tt
    ]

conclude-Sound :
    (r : Reader) (resume : String) (dims : List JudgeDimension) (a : Answered)
    → Sound r resume dims (conclude r resume dims a).0
conclude-Sound r resume dims (raised e, w) = tt
conclude-Sound r resume dims (ok response, w) = validate-Sound r resume dims response

module _ (r : Reader) (s : Settings) (resume : String) (dims : List JudgeDimension)
    (context : LlmCallContext) (env : Encounters) where
  try_again-Sound :
      (model : Option String) (response : LlmResponse) (e : InvalidOutput) (w : World)
      → Sound r resume dims (try_again r s resume dims context model env response e w).0
  try_again-Sound (some model) response e w = conclude-Sound r resume dims _
  try_again-Sound none response e w = elim (Bool-cases response.used_fallback) [
    | inl b ↦ rw b tt
    | inr b ↦ rw b (conclude-Sound r resume dims _)
  ]

  after_validation-Sound :
      (model : Option String) (response : LlmResponse) (w : World)
      (v : Result InvalidOutput JudgeResult)
      → Sound r resume dims (as_judged v)
      → Sound r resume dims (after_validation r s resume dims context model env response v w).0
  after_validation-Sound model response w (ok result) h = h
  after_validation-Sound model response w (raised e) h = try_again-Sound model response e w

  after_call-Sound :
      (model : Option String) (a : Answered)
      → Sound r resume dims (after_call r s resume dims context model env a).0
  after_call-Sound model (raised e, w) = tt
  after_call-Sound model (ok response, w) =
      after_validation-Sound model response w (validate r resume dims response)
        (validate-Sound r resume dims response)

-- Whatever the models send: where the judge returns a result, it answers the dimensions asked for,
-- one by one in their order, each with one of its tiers and that tier's score; an answer without a
-- score has no quotes, and any other has at least one, each not blank and found in the resume.
pub score-Sound :
    (r : Reader) (s : Settings) (resume : String) (dims : List JudgeDimension)
    (context : LlmCallContext) (model : Option String) (env : Encounters) (w : World)
    → Sound r resume dims (score r s resume dims context model env w).0
unfolding score
score-Sound r s resume [] context model env w = answered
score-Sound r s resume (dim ∷ dims) context model env w =
    after_call-Sound r s resume (dim ∷ dims) context env model _
