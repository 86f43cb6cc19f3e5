-- ===== src/Format.antt =====
-- What the program prints with fmt, strconv and time's Format. No theorem depends on how a value
-- is printed, so the printers are a parameter.
use k2a_token_sync.Base.{String, Option, Bool}
use k2a_token_sync.Base.Int.{ℤ}
use k2a_token_sync.Time.{Time, Duration}
use k2a_token_sync.Errors.{Result}

pub record Printer : Type 0 where
  -- strconv.Quote, and %q
  pub quote : String → String
  -- %d
  pub decimal : ℤ → String
  -- t.UTC().Format(time.RFC3339)
  pub rfc3339 : Time → String
  -- d.String()
  pub duration : Duration → String
  -- d.Round(time.Minute)
  pub round_minute : Duration → Duration
  -- int64(d.Seconds()), and int(d.Hours() / 24), in floating point
  pub whole_seconds : Duration → ℤ
  pub whole_days : Duration → ℤ

-- What the program reads texts with.
pub record Parser : Type 0 where
  pub trim_space : String → String
  -- time.Parse(time.RFC3339, s), where there is no error
  pub parse_rfc3339 : String → Option Time
  -- net.SplitHostPort: the host and the port
  pub split_host_port : String → Result (String × String)
  -- net.JoinHostPort
  pub join_host_port : (host port : String) → String
  -- strings.TrimPrefix, strings.TrimSuffix and strings.Contains on a text and a part of it
  pub trim_prefix : (text prefix : String) → String
  pub trim_suffix : (text suffix : String) → String
  pub contains_text : (text part : String) → Bool
  -- strconv.Atoi ends with no error
  pub is_numeric : String → Bool
  pub parse_duration : String → Result Duration
