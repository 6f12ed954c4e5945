-- ===== src/Commands.antt =====
-- The language of commands: include/application/commands/command_pattern.hpp,
-- src/application/commands/command_pattern_matcher.cpp, command_catalog.cpp and
-- src/protocol/parser.cpp. A child of this module holds each file.
pub mod Pattern
pub mod Catalog
pub mod Parser
pub mod Words
pub mod Matching
pub mod RoundTrip
