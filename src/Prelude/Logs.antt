-- ===== src/Prelude/Logs.antt =====
-- Lines of a log with their level, as the services write them when they start.
use xscope_hub.Prelude.Text.{Bytes}
use xscope_hub.Prelude.Maps.{Dict}

pub data Level : Type 0 where
  debug : Level
  info : Level
  warn : Level
  error : Level

pub record Line : Type 0 where
  pub level : Level
  pub text : Bytes
  pub fields : Dict Bytes

abbrev pub line : Level → Bytes → Dict Bytes → Line
line level text fields = record { level = level; text = text; fields = fields }
