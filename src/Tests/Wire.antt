-- ===== src/Tests/Wire.antt =====
-- Examples for api/event.go and client/: a message of two lines behind one of one line.
use lainlet.Base.{
  ◌≡◌, refl, inr, [], ◌∷◌, ◌++◌, arith, nat_eq, text_eq, Text-discrete, codes, split, ℕ_discrete,
}
use lainlet.Wire.{
  newline, is_space, starts_space, trim_left, trim_left_from, trim_right, watch_body,
}
use lainlet.Api.Server.{Message}
use lainlet.Wire.RoundTrip.{
  IsPlain, AreHeard, plain, heartbeat, nothing, more, responses_of, beat, text_of,
  watch_body-text_of,
}

abbrev first : Message
first = record { id = 1; event = codes "init"; content = codes "{}" }

abbrev second : Message
second = record { id = 2; event = codes "error"; content = codes "a" ++ newline ∷ codes "b" }

abbrev tick : Message
tick = record { id = 0; event = codes "heartbeat"; content = [] }

first-IsPlain : IsPlain first
unfolding trim_left trim_left_from starts_space is_space trim_right split ℕ_discrete Text-discrete
first-IsPlain =
    (omega arith, inr ((λ e. cc), (refl, refl)), refl, (λ e. cc), (((λ e. cc), (refl, refl)), tt))

second-IsPlain : IsPlain second
unfolding trim_left trim_left_from starts_space is_space trim_right split ℕ_discrete Text-discrete
second-IsPlain = (
  omega arith,
  inr ((λ e. cc), (refl, refl)),
  refl,
  (λ e. cc),
  (((λ e. cc), (refl, refl)), (((λ e. cc), (refl, refl)), tt)),
)

messages-AreHeard : AreHeard (first ∷ tick ∷ second ∷ []) (
    responses_of first (split first.content newline)
    ++ (beat 0 ∷ (responses_of second (split second.content newline) ++ [])))
messages-AreHeard =
    more (plain first first-IsPlain)
      (more (heartbeat 0 (omega arith)) (more (plain second second-IsPlain) nothing))

watch_body-text_of_example :
    watch_body (text_of (first ∷ tick ∷ second ∷ []))
    ≡ responses_of first (split first.content newline)
      ++ (beat 0 ∷ (responses_of second (split second.content newline) ++ []))
watch_body-text_of_example = watch_body-text_of (first ∷ tick ∷ second ∷ []) _ messages-AreHeard
