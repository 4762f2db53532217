-- ===== src/Records/Keys.antt =====
-- The keys of internal/state/redis.go do not meet.
use sandboxed_ai_agent_orche.Prelude.{◌≡◌, refl, false}
use sandboxed_ai_agent_orche.Prelude.Text.{Text, text_eq}
use sandboxed_ai_agent_orche.Records.{record_key, beat_key, session_key}

pub record_key_eq : (a b : Text) → text_eq (record_key a) (record_key b) ≡ text_eq a b
unfolding record_key text_eq
record_key_eq a b = refl

pub beat_key_eq : (a b : Text) → text_eq (beat_key a) (beat_key b) ≡ text_eq a b
unfolding beat_key text_eq
beat_key_eq a b = refl

pub session_key_eq : (a b : Text) → text_eq (session_key a) (session_key b) ≡ text_eq a b
unfolding session_key text_eq
session_key_eq a b = refl

pub beat-record : (a b : Text) → text_eq (beat_key a) (record_key b) ≡ false
unfolding record_key beat_key text_eq
beat-record a b = refl

pub record-beat : (a b : Text) → text_eq (record_key a) (beat_key b) ≡ false
unfolding record_key beat_key text_eq
record-beat a b = refl

pub session-record : (a b : Text) → text_eq (session_key a) (record_key b) ≡ false
unfolding record_key session_key text_eq
session-record a b = refl
