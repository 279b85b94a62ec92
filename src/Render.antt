-- ===== src/Render.antt =====
-- render: the parts of the drawing code that are pure functions of text and numbers.
pub mod Sanitize

-- `render.Mode`
pub data Mode : Type 0 where
  ascii : Mode
  png : Mode
  html : Mode
  svg : Mode
