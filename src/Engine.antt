-- ===== src/Engine.antt =====
-- engine/: the engines behind the interface of Common, and the table of models.
pub mod Mock
pub mod Manager
pub mod Onnx
