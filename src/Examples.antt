-- ===== src/Examples.antt =====
-- Concrete databases and calls: tests of the definitions, and the theorems at inputs that meet their
-- hypotheses.
mod Data
mod TransitionRuns
mod ExpirationRuns
mod SystemRuns
mod VersionRuns
mod RefundRuns
mod TextRuns
mod ScriptRuns
mod PaymentRuns
mod AccessRuns
mod ReconciliationRuns
