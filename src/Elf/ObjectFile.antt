-- ===== src/Elf/ObjectFile.antt =====
-- The part of `object::read::File` that src/elf.rs and src/target_info.rs read.
use probe_run.Base.{ℕ, Option, List}
use probe_run.Base.Text.{Str}
use probe_run.Result.{Result}

pub record Section : Type 0 where
  pub index : ℕ
  pub address : ℕ
  pub size : ℕ
  pub bytes : Result (List ℕ)

-- `name` is an error for a name that is not UTF-8; `section` is the index of the symbol's section.
pub record Symbol : Type 0 where
  pub name : Result Str
  pub section : Option ℕ
  pub address : ℕ
  pub size : ℕ

pub record ObjectFile : Type 0 where
  pub section_by_name : Str → Option Section
  pub sections : List Section
  pub symbols : List Symbol
