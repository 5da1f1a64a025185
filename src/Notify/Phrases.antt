-- ===== src/Notify/Phrases.antt =====
-- crates/tagents-core/src/notify/phrases.rs: the words of a notice in each locale.
use tagents.Prelude.{ℕ, ◌++◌, Bool, true, ltb, ◌==◌, if◌then◌else◌}
use tagents.Text.{Text, word, number_text}

pub data Locale : Type 0 where
  en ru : Locale

pub record Phrases : Type 0 where
  pub locale : Locale
  pub kind_question : Text
  pub kind_plan : Text
  pub kind_permission : Text
  pub kind_turn_done : Text
  pub kind_cache_expiring : Text
  pub kind_session_end : Text
  pub question_body : Text
  pub turn_done_body : Text
  pub permission_body : Text
  pub session_end_body : Text

-- `EN` and `RU`
unfoldable pub phrases_for : Locale → Phrases
phrases_for en = record {
  locale = en;
  kind_question = word "Asks you something";
  kind_plan = word "Plan ready for review";
  kind_permission = word "Needs your permission";
  kind_turn_done = word "Answer ready";
  kind_cache_expiring = word "Prompt cache expiring";
  kind_session_end = word "Session ended";
  question_body = word "Asking you something";
  turn_done_body = word "Your move";
  permission_body = word "Waiting for your permission";
  session_end_body = word "No reason given";
}
phrases_for ru = record {
  locale = ru;
  kind_question = word "Задаёт вопрос";
  kind_plan = word "План готов к проверке";
  kind_permission = word "Нужно ваше разрешение";
  kind_turn_done = word "Ответ готов";
  kind_cache_expiring = word "Кэш промпта истекает";
  kind_session_end = word "Сессия завершена";
  question_body = word "Хочет что-то спросить";
  turn_done_body = word "Ваш ход";
  permission_body = word "Ждёт вашего разрешения";
  session_end_body = word "Причина не указана";
}

-- A whole number of minutes with a sign: the sign and the size.
pub record Minutes : Type 0 where
  pub negative : Bool
  pub size : ℕ

-- `js::number_text` of whole minutes; zero has no sign.
unfoldable pub minutes_text : Minutes → Text
minutes_text m =
    if m.size == 0
    then number_text 0
    else if m.negative
    then word "-" ++ number_text m.size
    else number_text m.size

-- `left_min < 1.0`
abbrev pub below_one : Minutes → Bool
below_one m = if m.negative then true else ltb m.size 1

unfoldable pub cache_body_in : Locale → Minutes → Minutes → Text
unfolding minutes_text
cache_body_in en idle left =
    let within =
      if below_one left then word "a minute" else word "~" ++ (minutes_text left ++ word " min") in
    word "Idle "
    ++ (minutes_text idle
        ++ (word " min — send anything within " ++ (within ++ word " to keep the prompt cache")))
cache_body_in ru idle left =
    let within =
      if below_one left then word "минуты" else word "~" ++ (minutes_text left ++ word " мин") in
    word "Простой "
    ++ (minutes_text idle
        ++ (word " мин — отправьте что угодно в течение "
            ++ (within ++ word ", чтобы сохранить кэш промпта")))

-- `Phrases::cache_body`
unfoldable pub cache_body : Phrases → Minutes → Minutes → Text
unfolding cache_body_in
cache_body p idle left = cache_body_in p.locale idle left
