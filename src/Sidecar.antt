-- ===== src/Sidecar.antt =====
-- ml-sidecar/: the service that scores requests. The Redis server, the forests of scikit-learn, the
-- ONNX session and the JSON library are an interface; times are the seconds of the Redis server.
pub mod Runtime
pub mod Dicts
pub mod Forest
pub mod Sequence
pub mod Scorer
pub mod Bounds
pub mod Verdicts
pub mod Accesses
pub mod Recent
pub mod Training
pub mod Retrain
pub mod Learned
