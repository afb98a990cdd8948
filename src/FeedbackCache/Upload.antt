-- ===== src/FeedbackCache/Upload.antt =====
-- What a get hands out after an upload.
use hashiverse.Crypto.{Crypto}
