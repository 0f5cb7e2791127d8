-- ===== src/Admin/BlockEditor/Carets.antt =====
-- Where the editor of adminPage/common/blockEditor.js sets the caret for a refusal.
