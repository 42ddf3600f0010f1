-- ===== src/Time/Tests.antt =====
-- Dates printed by the model, against those of the language.
use balcony_agent_bridge.Base.{◌≡◌, refl, text_lt, true}
use balcony_agent_bridge.Time.{to_iso_string, add_seconds, date_parse}

epoch_text : to_iso_string 0 ≡ "1970-01-01T00:00:00.000Z"
unfolding to_iso_string
epoch_text = refl

leap_day_text : to_iso_string 1709210096789 ≡ "2024-02-29T12:34:56.789Z"
unfolding to_iso_string
leap_day_text = refl

year_end_text : to_iso_string 1767225599999 ≡ "2025-12-31T23:59:59.999Z"
unfolding to_iso_string
year_end_text = refl

texts_in_order :
    text_lt (to_iso_string 1767225599999) (to_iso_string (add_seconds 1767225599999 1)) ≡ true
unfolding to_iso_string add_seconds text_lt
texts_in_order = refl

parsed_dates :
    (date_parse "2024-02-29T12:34:56.789Z" ≡ 1709210096789)
    × (date_parse "2026-01-01T10:00:00+10:00" ≡ date_parse "2026-01-01T00:00Z")
    × (date_parse "1970-01-01T00:00:00.5Z" ≡ 500)
unfolding date_parse
parsed_dates = (refl, refl, refl)
