-- ===== src/Gateway/Unary/Answers.antt =====
-- When a call without streaming answers.
