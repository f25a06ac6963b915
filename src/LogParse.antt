-- ===== src/LogParse.antt =====
-- applets/log_parse: the filters, the fields of an expression, the output, the aggregates, and the
-- loop over the lines.
pub mod Filter
pub mod Csv
pub mod Regex
pub mod Output
pub mod Aggregate
pub mod Main
pub mod Tests
