-- ===== src/Admission.antt =====
-- pkg/admission: the webhook that defaults and validates machines and machine deployments.
pub mod Deployments
pub mod Machines
pub mod Review
pub mod Acceptance
pub mod Validity
pub mod Immutability
pub mod Validation
pub mod Answers
