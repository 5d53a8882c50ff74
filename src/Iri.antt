-- ===== src/Iri.antt =====
-- libwget/iri.c: characters, percent escapes, the normalisation of paths, parsing and resolution.
pub mod DotSegments
pub mod Percent
pub mod Parse
pub mod Resolve
pub mod Filename
