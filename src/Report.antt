-- ===== src/Report.antt =====
-- src/report/junit.rs: test suites as data, the outcome of each test over all attempts, and the JUnit
-- XML that suites are read from and written to.
pub mod Suites
pub mod Master
pub mod Outcomes
pub mod Counts
pub mod Reader
pub mod Writer
pub mod Rereading
pub mod Xml
pub mod WellFormed
pub mod RoundTrip
pub mod Restored
mod Samples
