-- ===== src/Lsp.antt =====
-- internal/lsp, the language server: how it keeps the text of a document.
pub mod Incremental
pub mod SemanticTokens
pub mod Document
