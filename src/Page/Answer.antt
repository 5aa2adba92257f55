-- ===== src/Page/Answer.antt =====
-- The assistant's answer as it streams into plugin/ui/app.ts.
use Prim.Native.String.{◌++◌}
use text.Mathlib.TextLemmas.{
  append_assoc as text-append_assoc, append-nil as text-append-nil, nil-append,
}
use openclaw_rtc_plugin.Common.{
  ℕ, String, ◌≡◌, refl, ap, sym, subst, ◌∙◌, Option, none, some, List, [], ◌∷◌, ◌++◌ as append,
  append_assoc, append-nil, length, arith,
}
use openclaw_rtc_plugin.Page.{Role, assistant, Message, Shown}
use openclaw_rtc_plugin.Page.Show.{
  message, append_message, set_text, show_answer, extend_answer, open_answer,
  append_assistant_delta, finalize_assistant_message,
}

-- What is written while an answer streams in: a part of it, or a message of its own.
pub data Write : Type 0 where
  delta : String → Write
  posted : Role → String → Write

unfoldable pub write : Write → Shown → Shown
write (delta text) s = append_assistant_delta text s
write (posted role text) s = append_message role text s

unfoldable pub write_all : List Write → Shown → Shown
write_all [] s = s
write_all (w ∷ ws) s = write_all ws (write w s)

abbrev pub text_of : Write → String
text_of (delta text) = text
text_of (posted role text) = ""

-- The parts of the answer, joined.
unfoldable pub joined : List Write → String
joined [] = ""
joined (w ∷ ws) = text_of w ++ joined ws

abbrev pub post_of : Write → List Message
post_of (delta text) = []
post_of (posted role text) = message role text ∷ []

-- The other messages, in their order.
unfoldable pub posts : List Write → List Message
posts [] = []
posts (w ∷ ws) = append (post_of w) (posts ws)

-- An answer stands at its place in `messages`, with messages before and after it.
record IsStreaming (before after : List Message) (text : String) (s : Shown) : Type 0 where
  shown : s.messages ≡ append before (message assistant text ∷ after)
  place : s.current_assistant_message ≡ some (length before)
  buffer : s.assistant_buffer ≡ text

set_text-place :
    (before after : List Message) (old new : String)
    → set_text (length before) new (append before (message assistant old ∷ after))
      ≡ append before (message assistant new ∷ after)
unfolding set_text
set_text-place [] after old new = refl
set_text-place (m ∷ before) after old new = ap (◌∷◌ m) (set_text-place before after old new)

extend_answer-IsStreaming :
    (before after : List Message) (text t : String) (s : Shown)
    → IsStreaming before after text s
    → IsStreaming before after (text ++ t) (extend_answer t s)
extend_answer-IsStreaming before after text t s h = record {
  shown =
      ap (λ o. show_answer o (s.assistant_buffer ++ t) s.messages) h.place
      ∙ ap (λ b. set_text (length before) (b ++ t) s.messages) h.buffer
      ∙ ap (set_text (length before) (text ++ t)) h.shown
      ∙ set_text-place before after text (text ++ t);
  place = h.place;
  buffer = ap (λ b. b ++ t) h.buffer;
}

delta-IsStreaming :
    (before after : List Message) (text t : String) (s : Shown) (o : Option ℕ)
    → o ≡ some (length before)
    → IsStreaming before after text s
    → IsStreaming before after (text ++ t) (extend_answer t (open_answer o s))
delta-IsStreaming before after text t s none at h = absurd (ground (arith, at))
delta-IsStreaming before after text t s (some i) at h =
    extend_answer-IsStreaming before after text t s h

write-IsStreaming :
    (before after : List Message) (text : String) (w : Write) (s : Shown)
    → IsStreaming before after text s
    → IsStreaming before (append after (post_of w)) (text ++ text_of w) (write w s)
unfolding write append_assistant_delta append_message
write-IsStreaming before after text (delta t) s h =
    subst (λ ms. IsStreaming before ms (text ++ t) (append_assistant_delta t s))
      (sym (append-nil after))
      (delta-IsStreaming before after text t s s.current_assistant_message h.place h)
write-IsStreaming before after text (posted role t) s h =
    subst (λ u. IsStreaming before (append after (message role t ∷ [])) u (append_message role t s))
      (sym (text-append-nil text))
      (record {
        shown =
            ap (λ ms. append ms (message role t ∷ [])) h.shown
            ∙ append_assoc before (message assistant text ∷ after) (message role t ∷ []);
        place = h.place;
        buffer = h.buffer;
      })

write_all-IsStreaming :
    (before after : List Message) (text : String) (ws : List Write) (s : Shown)
    → IsStreaming before after text s
    → IsStreaming before (append after (posts ws)) (text ++ joined ws) (write_all ws s)
unfolding write_all joined posts
write_all-IsStreaming before after text [] s h =
    subst (λ ms. IsStreaming before ms (text ++ "") s) (sym (append-nil after))
      (subst (λ u. IsStreaming before after u s) (sym (text-append-nil text)) h)
write_all-IsStreaming before after text (w ∷ ws) s h =
    subst
      (λ ms. IsStreaming before ms (text ++ (text_of w ++ joined ws)) (write_all ws (write w s)))
      (append_assoc after (post_of w) (posts ws))
      (subst
        (λ u.
          IsStreaming before (append (append after (post_of w)) (posts ws)) u
            (write_all ws (write w s)))
        (text-append_assoc text (text_of w) (joined ws))
        (write_all-IsStreaming before (append after (post_of w)) (text ++ text_of w) ws (write w s)
          (write-IsStreaming before after text w s h)))

first-IsStreaming :
    (t : String) (s : Shown) (o : Option ℕ)
    → o ≡ none
    → IsStreaming s.messages [] t (extend_answer t (open_answer o s))
first-IsStreaming t s (some i) at = absurd (ground (arith, at))
first-IsStreaming t s none at =
    subst (λ u. IsStreaming s.messages [] u (extend_answer t (open_answer none s))) (nil-append t)
      (extend_answer-IsStreaming s.messages [] "" t (open_answer none s)
        (record { shown = refl; place = refl; buffer = refl }))

-- An answer from its first part to `chat.done`, with what is posted in between.
abbrev pub Round : Type 0
Round = String × List Write

unfoldable pub answer : Round → Shown → Shown
unfolding write_all write
answer (t, ws) s = finalize_assistant_message (write_all (delta t ∷ ws) s)

unfoldable pub answer_all : List Round → Shown → Shown
answer_all [] s = s
answer_all (r ∷ rs) s = answer_all rs (answer r s)

-- One message with the whole answer, then what was posted.
unfoldable pub conversation : List Round → List Message
unfolding joined posts
conversation [] = []
conversation ((t, ws) ∷ rs) =
    append (message assistant (t ++ joined ws) ∷ posts ws) (conversation rs)

answer-messages :
    (t : String) (ws : List Write) (s : Shown)
    → s.current_assistant_message ≡ none
    → (answer (t, ws) s).messages
      ≡ append s.messages (message assistant (t ++ joined ws) ∷ posts ws)
unfolding answer write_all write append_assistant_delta finalize_assistant_message
answer-messages t ws s at =
    (write_all-IsStreaming s.messages [] t ws (append_assistant_delta t s)
      (first-IsStreaming t s s.current_assistant_message at)).shown

pub answers_are_whole :
    (rs : List Round) (s : Shown)
    → s.current_assistant_message ≡ none
    → (answer_all rs s).messages ≡ append s.messages (conversation rs)
unfolding answer_all conversation answer finalize_assistant_message
answers_are_whole [] s at = sym (append-nil s.messages)
answers_are_whole ((t, ws) ∷ rs) s at =
    answers_are_whole rs (answer (t, ws) s) refl
    ∙ ap (λ ms. append ms (conversation rs)) (answer-messages t ws s at)
    ∙ append_assoc s.messages (message assistant (t ++ joined ws) ∷ posts ws) (conversation rs)
