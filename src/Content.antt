-- ===== src/Content.antt =====
-- The content of a Short (src/shared/contracts.ts, src/shared/validators.ts): source ranges, composition,
-- captions and audio. JSON that no modelled code reads is a number that stands for its text.
use short_editor.Prelude.{ℕ, Bool, List, Option}
use native.Mathlib.Decide.{ℕ_discrete}

pub record SourceRange : Type 0 where
  pub start_ms : ℕ
  pub end_ms : ℕ

pub record CropFrame : Type 0 where
  pub at_ms : ℕ
  pub crop : ℕ

pub data CropMode : Type 0 where
  crop automatic : CropMode

pub record CropControl : Type 0 where
  pub id : ℕ
  pub at_ms : ℕ
  pub mode : CropMode
  pub rectangle : ℕ

pub record VideoLayer : Type 0 where
  pub id : ℕ
  pub automatic : List CropFrame
  pub manual : List CropControl
  pub settings : ℕ

pub data Layer : Type 0 where
  video : VideoLayer → Layer
  other : ℕ → Layer

pub record Composition : Type 0 where
  pub layers : List Layer
  pub canvas : ℕ

pub record Sidecars : Type 0 where
  pub srt : Option ℕ
  pub webvtt : Option ℕ

pub record CaptionState : Type 0 where
  pub enabled : Bool
  pub cues : ℕ
  pub sidecars : Sidecars

abbrev pub AudioState : Type 0
AudioState = ℕ

abbrev pub CopyPackage : Type 0
CopyPackage = ℕ

pub SourceRange-discrete : Discrete (List SourceRange)
SourceRange-discrete = hlevel ℕ_discrete

pub Composition-discrete : Discrete Composition
Composition-discrete = hlevel ℕ_discrete

pub CaptionState-discrete : Discrete CaptionState
CaptionState-discrete = hlevel ℕ_discrete
