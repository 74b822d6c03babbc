-- ===== src/Tests.antt =====
-- Runs of the model on concrete inputs, and the theorems at inputs that meet their hypotheses.
mod Bench
mod RelayRuns
mod RelayExamples
mod MirrorExamples
mod ConfigExamples
mod ButtonExamples
mod InputExamples
mod CounterExamples
mod ScheduleExamples
mod AlertExamples
mod RtcExamples
mod IndicatorExamples
mod WebExamples
mod SkExamples
mod N2kExamples
mod ToneExamples
