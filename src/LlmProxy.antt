-- ===== src/LlmProxy.antt =====
-- apps/agentic-analysis/llm_proxy.py: what models.toml gives the proxy (Settings, Model, Backend,
-- Role). Times are milliseconds, speeds thousandths of a token in a second.
pub mod Samples
pub mod Gate
pub mod Reply
pub mod Message
pub mod Exchange
pub mod Pick
pub mod Forward
pub mod Load
pub mod Server
mod Examples
use purdue_af.Common.{ℕ, ◌≤◌, ◌<◌, String, List}
use purdue_af.Common.Dict.{Dict}

pub record Settings : Type 0 where
  pub stream_time : ℕ
  pub cut_time : ℕ
  pub hold_time : ℕ
  pub backoff : ℕ
  pub backoff_max : ℕ
  pub cut_retries : ℕ

-- `start` and `most` are the two numbers of `slots`, `floor` and `ceiling` those of `max_tokens`;
-- `ttft` and `decode` the typical figures, `late` and `slow` the slow ones.
pub record Model : Type 0 where
  pub name : String
  pub context : ℕ
  pub start : ℕ
  pub most : ℕ
  pub budget : ℕ
  pub output_per_minute : ℕ
  pub floor : ℕ
  pub ceiling : ℕ
  pub image_tokens : ℕ
  pub ttft : ℕ
  pub late : ℕ
  pub decode : ℕ
  pub slow : ℕ
  pub variants : List String

pub record Backend : Type 0 where
  pub model : String
  pub variant : String

pub record Role : Type 0 where
  pub name : String
  pub backends : List Backend
  pub images : ℕ
  pub rank : ℕ

-- What `load` has checked of a model's numbers.
pub record IsChecked (m : Model) : Type 0 where
  pub some_slot : 1 ≤ m.start
  pub start_most : m.start ≤ m.most
  pub some_token : 0 < m.floor
  pub floor_ceiling : m.floor ≤ m.ceiling
