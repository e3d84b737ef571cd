-- ===== src/Client/Responses/Entries.antt =====
-- src/client.rs, `collect_rci_errors`, its closure: what an error status is and the entry of it.
use keenetic_rci.Prelude.{
  ◌≡◌, inl, inr, Option, none, some, str_eq, str_eq_sound, refl, ap, ◌∙◌, Bool-cases, arith,
}
use keenetic_rci.Prelude.Str.{Str, codes}
use keenetic_rci.Prelude.Optional.{some-injective}
use keenetic_rci.Json.{Value, null, boolean, number, string, array, object, Fields, field_get}
use keenetic_rci.Error.{RciStatusEntry}
use keenetic_rci.Client.Responses.{text_of, entry_of, status_entry}

-- The text of a field, or that it has none: it is missing, or no string.
abbrev pub HasText : Fields → Str → Option Str → Type 0
HasText fs key none = (text : Str) → ¬ (field_get fs key ≡ some (string text))
HasText fs key (some text) = field_get fs key ≡ some (string text)

-- An error status: an object whose field "status" is the string "error", with the entry that holds
-- the texts of its fields "code", "ident" and "message".
pub data IsErrorStatus (entry : RciStatusEntry) : Value → Type 0 where
  error_status :
      {fs : Fields}
      → field_get fs (codes "status") ≡ some (string (codes "error"))
      → HasText fs (codes "code") entry.code
      → HasText fs (codes "ident") entry.ident
      → HasText fs (codes "message") entry.message
      → IsErrorStatus entry (object fs)

text_of-eq-some : (o : Option Value) (text : Str) → text_of o ≡ some text → o ≡ some (string text)
text_of-eq-some none text h = cc
text_of-eq-some (some (string s)) text h = ap (λ t. some (string t)) (some-injective h)
text_of-eq-some (some null) text h = cc
text_of-eq-some (some (boolean b)) text h = cc
text_of-eq-some (some (number n)) text h = cc
text_of-eq-some (some (array vs)) text h = cc
text_of-eq-some (some (object fs)) text h = cc

text_of-eq-none : (o : Option Value) (text : Str) → text_of o ≡ none → ¬ (o ≡ some (string text))
text_of-eq-none none text h = λ e. cc
text_of-eq-none (some (string s)) text h = cc
text_of-eq-none (some null) text h = λ e. cc
text_of-eq-none (some (boolean b)) text h = λ e. cc
text_of-eq-none (some (number n)) text h = λ e. cc
text_of-eq-none (some (array vs)) text h = λ e. cc
text_of-eq-none (some (object fs)) text h = λ e. cc

text_of-HasText :
    (fs : Fields) (key : Str) (o : Option Str) → text_of (field_get fs key) ≡ o → HasText fs key o
text_of-HasText fs key none h = λ text. text_of-eq-none (field_get fs key) text h
text_of-HasText fs key (some text) h = text_of-eq-some (field_get fs key) text h

no_text : (o : Option Value) → ((text : Str) → ¬ (o ≡ some (string text))) → text_of o ≡ none
no_text none h = refl
no_text (some (string s)) h = absurd (h s refl)
no_text (some null) h = refl
no_text (some (boolean b)) h = refl
no_text (some (number n)) h = refl
no_text (some (array vs)) h = refl
no_text (some (object fs)) h = refl

HasText-text_of :
    (fs : Fields) (key : Str) (o : Option Str) → HasText fs key o → text_of (field_get fs key) ≡ o
HasText-text_of fs key none h = no_text (field_get fs key) h
HasText-text_of fs key (some text) h = rw h refl

entry_of-IsErrorStatus :
    (fs : Fields) (o : Option Str) (entry : RciStatusEntry)
    → text_of (field_get fs (codes "status")) ≡ o
    → entry_of fs o ≡ some entry
    → IsErrorStatus entry (object fs)
entry_of-IsErrorStatus fs none entry e h = cc
entry_of-IsErrorStatus fs (some status) entry e h =
    elim (Bool-cases (str_eq status (codes "error"))) [
      | inr other ↦ absurd (ground (arith, other, h))
      | inl same ↦
          let made = some-injective (rw same at h) in
          error_status
            (text_of-eq-some _ _ (e ∙ ap some (str_eq_sound status (codes "error") same)))
            (text_of-HasText fs (codes "code") entry.code (ap (λ x. x.code) made))
            (text_of-HasText fs (codes "ident") entry.ident (ap (λ x. x.ident) made))
            (text_of-HasText fs (codes "message") entry.message (ap (λ x. x.message) made))
    ]

pub status_entry-IsErrorStatus :
    (v : Value) (entry : RciStatusEntry) → status_entry v ≡ some entry → IsErrorStatus entry v
unfolding status_entry
status_entry-IsErrorStatus (object fs) entry h = entry_of-IsErrorStatus fs _ entry refl h
status_entry-IsErrorStatus null entry h = cc
status_entry-IsErrorStatus (boolean b) entry h = cc
status_entry-IsErrorStatus (number n) entry h = cc
status_entry-IsErrorStatus (string s) entry h = cc
status_entry-IsErrorStatus (array vs) entry h = cc

pub IsErrorStatus-status_entry :
    (v : Value) (entry : RciStatusEntry) → IsErrorStatus entry v → status_entry v ≡ some entry
unfolding status_entry str_eq
IsErrorStatus-status_entry v entry (error_status {fs} status code ident message) =
    rw
      (
        status,
        HasText-text_of fs (codes "code") entry.code code,
        HasText-text_of fs (codes "ident") entry.ident ident,
        HasText-text_of fs (codes "message") entry.message message,
      )
      refl
