-- ===== src/Session/Keys.antt =====
-- When two conversations get different session keys.
use dobby_ai.Base.{
  ◌+◌, ◌-◌, ◌≤◌, ◌≡◌, ap, ◌∙◌, sym, Option, some, ◌∷◌, ◌++◌, arith, Bytes, length, length-append,
  take-of_length_le,
}
use dobby_ai.Text.{split_char}
use dobby_ai.Text.Search.{Avoids, split_char-append}
use dobby_ai.Session.{session_key_max, session_key}

-- A key that is not cut off by the buffer is the channel, a colon and the chat.
session_key-short :
    (channel chat_id : Bytes)
    → length channel + length chat_id + 2 ≤ session_key_max
    → session_key channel chat_id ≡ channel ++ (b':' ∷ chat_id)
unfolding session_key
session_key-short channel chat_id h =
    take-of_length_le (session_key_max - 1) (channel ++ (b':' ∷ chat_id))
      (omega (arith, length-append channel (b':' ∷ chat_id)))

-- Conversations whose keys fit the buffer, on channels without a colon in their names, share a
-- key only if the channel and the chat are the same.
pub session_key_inj :
    (channel channel' chat_id chat_id' : Bytes)
    → Avoids b':' channel
    → Avoids b':' channel'
    → length channel + length chat_id + 2 ≤ session_key_max
    → length channel' + length chat_id' + 2 ≤ session_key_max
    → session_key channel chat_id ≡ session_key channel' chat_id'
    → (channel ≡ channel') × (chat_id ≡ chat_id')
session_key_inj channel channel' chat_id chat_id' a a' h h' e =
    let whole : channel ++ (b':' ∷ chat_id) ≡ channel' ++ (b':' ∷ chat_id') =
      sym (session_key-short channel chat_id h) ∙ e ∙ session_key-short channel' chat_id' h' in
    let parts : ◌≡◌ {A = Option (Bytes × Bytes)} (some (channel, chat_id))
        (some (channel', chat_id')) =
      sym (split_char-append b':' channel chat_id a)
      ∙ ap (split_char b':') whole
      ∙ split_char-append b':' channel' chat_id' a' in
    ground arith
