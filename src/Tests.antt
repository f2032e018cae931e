-- ===== src/Tests.antt =====
-- Concrete instances of the parameters, and the theorems applied to them.
pub mod Codecs
pub mod Curves
pub mod CurveExamples
pub mod Kems
pub mod Signatures
pub mod KemExamples
pub mod KeyExamples
pub mod Packing
pub mod Messages
pub mod Envelopes
pub mod EnvelopeExamples
pub mod BuilderExamples
pub mod DsaExamples
pub mod StoreExamples
pub mod FipsExamples
pub mod WrapExamples
pub mod ManagerExamples
pub mod CertBuilderExamples
